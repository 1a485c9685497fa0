-- ===== src/CommitLog/Unfinished.antt =====
-- `get_unfinished_transactions` of commit_log.rs, and its specification on the lines of the log.
use mathlib.Core.Path.{subst}
use kave.Base.{
  ℕ, ◌+◌, ◌<◌, ◌≤◌, Bool, false, ◌||◌, List, [], ◌∷◌, ◌++◌, ◌≡◌, refl, sym, ap, ◌∙◌, arith, length,
  append_assoc, append-nil, if◌then◌else◌, ◌==◌,
}
use kave.Base.Bytes.{Bytes}
use kave.Error.{ok}
use kave.External.{Codec, IsBincode, AsyncIo, IsBigEndian, FullReads}
use kave.Store.{Uuid, Transaction}
use kave.CommitLog.{
  CommitLogLine, begin_tx, end_tx, CommitLog, created, Pending, remove, apply_line, place,
  sort_values, transactions, get_unfinished_transactions, read_lines, read_all,
}
use kave.CommitLog.Lines.{
  Made, apply_lines, bytes_of, Fit, Holds, decode_from-end, read_all-bytes_of,
}

-- Some line begins or ends the transaction.
unfoldable pub mentions : Uuid → List CommitLogLine → Bool
mentions id [] = false
mentions id (begin_tx tx ∷ ls) = id == tx.id || mentions id ls
mentions id (end_tx j ∷ ls) = id == j || mentions id ls

-- The specification: a begun transaction is unfinished if nothing after its line mentions it.
unfoldable pub unfinished : List CommitLogLine → List Transaction
unfinished [] = []
unfinished (begin_tx tx ∷ ls) = if mentions tx.id ls then unfinished ls else tx ∷ unfinished ls
unfinished (end_tx id ∷ ls) = unfinished ls

-- What the map still holds when the lines have been read.
survivors : List CommitLogLine → Pending → List Transaction
survivors ls [] = []
survivors ls ((id, i, tx) ∷ txs) =
    if mentions id ls then survivors ls txs else tx ∷ survivors ls txs

survivors-append :
    (ls : List CommitLogLine) (a b : Pending)
    → survivors ls (a ++ b) ≡ survivors ls a ++ survivors ls b
unfolding survivors
survivors-append ls [] b = refl
survivors-append ls ((id, i, tx) ∷ a) b = ground (arith, survivors-append ls a b)

survivors-end :
    (id : Uuid) (ls : List CommitLogLine) (txs : Pending)
    → survivors ls (remove id txs) ≡ survivors (end_tx id ∷ ls) txs
unfolding survivors remove mentions
survivors-end id ls [] = refl
survivors-end id ls ((j, i, tx) ∷ txs) = ground (arith, survivors-end id ls txs)

survivors-begin :
    (tx : Transaction) (ls : List CommitLogLine) (txs : Pending)
    → survivors ls (remove tx.id txs) ≡ survivors (begin_tx tx ∷ ls) txs
unfolding survivors remove mentions
survivors-begin tx ls [] = refl
survivors-begin tx ls ((j, i, t) ∷ txs) = ground (arith, survivors-begin tx ls txs)

-- The entries carry the line numbers in ascending order, all at least `lo` and below `hi`.
abbrev Ascending : ℕ → ℕ → Pending → Type 0
Ascending lo hi [] = lo ≤ hi
Ascending lo hi ((id, i, tx) ∷ txs) = (lo ≤ i) × Ascending (i + 1) hi txs

Ascending-weaken : (lo k hi : ℕ) (txs : Pending) → lo ≤ k → Ascending k hi txs → Ascending lo hi txs
Ascending-weaken lo k hi [] h a = omega arith
Ascending-weaken lo k hi ((id, i, tx) ∷ txs) h a = (omega arith, a.1)

Ascending-remove :
    (id : Uuid) (lo hi : ℕ) (txs : Pending) → Ascending lo hi txs → Ascending lo hi (remove id txs)
unfolding remove
Ascending-remove id lo hi [] a = a
Ascending-remove id lo hi ((j, i, tx) ∷ txs) a =
    ground (
      arith,
      Ascending-remove id (i + 1) hi txs a.1,
      Ascending-weaken lo (i + 1) hi (remove id txs),
    )

Ascending-concat :
    (id : Uuid) (tx : Transaction) (lo hi : ℕ) (txs : Pending)
    → Ascending lo hi txs
    → Ascending lo (hi + 1) (txs ++ (id, hi, tx) ∷ [])
Ascending-concat id tx lo hi [] a = (a, omega arith)
Ascending-concat id tx lo hi ((j, i, t) ∷ txs) a = (a.0, Ascending-concat id tx (i + 1) hi txs a.1)

Ascending-grow : (lo hi : ℕ) (txs : Pending) → Ascending lo hi txs → Ascending lo (hi + 1) txs
Ascending-grow lo hi [] a = omega arith
Ascending-grow lo hi ((j, i, t) ∷ txs) a = (a.0, Ascending-grow (i + 1) hi txs a.1)

-- In a list that is in order already, sorting changes nothing.
plain : Pending → List (ℕ × Transaction)
plain [] = []
plain ((id, i, tx) ∷ txs) = (i, tx) ∷ plain txs

place-plain :
    (i hi : ℕ) (tx : Transaction) (txs : Pending)
    → Ascending (i + 1) hi txs
    → place i tx (plain txs) ≡ (i, tx) ∷ plain txs
unfolding place plain
place-plain i hi tx [] a = refl
place-plain i hi tx ((j, k, t) ∷ txs) a = ground arith

sort_values-plain : (lo hi : ℕ) (txs : Pending) → Ascending lo hi txs → sort_values txs ≡ plain txs
unfolding sort_values plain
sort_values-plain lo hi [] a = refl
sort_values-plain lo hi ((id, i, tx) ∷ txs) a =
    rw (sort_values-plain (i + 1) hi txs a.1) (place-plain i hi tx txs a.1)

transactions-plain : (txs : Pending) → transactions (plain txs) ≡ survivors [] txs
unfolding transactions plain survivors mentions
transactions-plain [] = refl
transactions-plain ((id, i, tx) ∷ txs) = ap (◌∷◌ tx) (transactions-plain txs)

Ascending-apply_line :
    (i : ℕ) (l : CommitLogLine) (txs : Pending)
    → Ascending 0 i txs
    → Ascending 0 (i + 1) (apply_line i l txs)
unfolding apply_line
Ascending-apply_line i (begin_tx tx) txs a =
    Ascending-concat tx.id tx 0 i (remove tx.id txs) (Ascending-remove tx.id 0 i txs a)
Ascending-apply_line i (end_tx id) txs a =
    Ascending-grow 0 i (remove id txs) (Ascending-remove id 0 i txs a)

survivors-begin_one :
    (i : ℕ) (tx : Transaction) (ls : List CommitLogLine)
    → survivors ls ((tx.id, i, tx) ∷ []) ++ unfinished ls ≡ unfinished (begin_tx tx ∷ ls)
unfolding survivors unfinished
survivors-begin_one i tx ls = ground arith

survivors-apply_line :
    (i : ℕ) (l : CommitLogLine) (ls : List CommitLogLine) (txs : Pending)
    → survivors ls (apply_line i l txs) ++ unfinished ls
      ≡ survivors (l ∷ ls) txs ++ unfinished (l ∷ ls)
unfolding apply_line
survivors-apply_line i (begin_tx tx) ls txs =
    rw (survivors-append ls (remove tx.id txs) ((tx.id, i, tx) ∷ []), survivors-begin tx ls txs)
      (append_assoc (survivors (begin_tx tx ∷ ls) txs) _ _
        ∙ ap (λ (r : List Transaction). survivors (begin_tx tx ∷ ls) txs ++ r)
            (survivors-begin_one i tx ls))
survivors-apply_line i (end_tx id) ls txs =
    ap (λ (r : List Transaction). r ++ unfinished ls) (survivors-end id ls txs)
    ∙ ap (λ (r : List Transaction). survivors (end_tx id ∷ ls) txs ++ r)
        (sym (unfold unfinished in refl))

sort_values-apply_lines :
    (ls : List CommitLogLine) (i : ℕ) (txs : Pending)
    → Ascending 0 i txs
    → transactions (sort_values (apply_lines i ls txs)) ≡ survivors ls txs ++ unfinished ls
unfolding apply_lines unfinished
sort_values-apply_lines [] i txs a =
    rw (sort_values-plain 0 i txs a, transactions-plain txs) (sym (append-nil _))
sort_values-apply_lines (l ∷ ls) i txs a =
    sort_values-apply_lines ls (i + 1) (apply_line i l txs) (Ascending-apply_line i l txs a)
    ∙ survivors-apply_line i l ls txs

module _ {codec : Codec CommitLogLine} (bincode : IsBincode codec) {tokio : AsyncIo}
    (big_endian : IsBigEndian tokio) where
  -- The loop over whole records, with a few bytes or none behind them.
  read_all-whole :
      (ls : List CommitLogLine) (tail : Bytes)
      → FullReads tokio
      → Fit bincode tokio.vec_room ls
      → length (bytes_of bincode ls ++ tail) ≤ tokio.buffer_size
      → length tail < 8
      → read_all codec tokio (bytes_of bincode ls ++ tail) ≡ ok (apply_lines 0 ls [])
  read_all-whole ls tail full fit whole short =
      read_all-bytes_of bincode big_endian ls tail full fit whole
      ∙ unfold read_lines in rw (decode_from-end bincode big_endian tail short)

  -- For a log file of whole records, none of them longer than the room of the read, with fewer than
  -- eight bytes behind them, `get_unfinished_transactions` returns the begun transactions whose id
  -- no later line mentions, in the order of their lines. The file is no longer than the buffer
  -- through which it is read, and the codec and the stream keep their laws.
  pub get_unfinished_tail :
      (log : CommitLog) (ls : List CommitLogLine) (tail : Bytes)
      → created log.file ≡ bytes_of bincode ls ++ tail
      → FullReads tokio
      → Fit bincode tokio.vec_room ls
      → length (created log.file) ≤ tokio.buffer_size
      → length tail < 8
      → (get_unfinished_transactions codec tokio log).0 ≡ ok (unfinished ls)
  unfolding get_unfinished_transactions
  get_unfinished_tail log ls tail h full fit whole short =
      rw
        (
          h,
          read_all-whole ls tail full fit
              (subst (λ (b : Bytes). length b ≤ tokio.buffer_size) h whole) short,
          sort_values-apply_lines ls 0 [] (omega arith),
        )
        (unfold survivors in refl)

  pub get_unfinished_lem :
      (log : CommitLog) (ls : List CommitLogLine)
      → Holds bincode log ls
      → FullReads tokio
      → Fit bincode tokio.vec_room ls
      → length (created log.file) ≤ tokio.buffer_size
      → (get_unfinished_transactions codec tokio log).0 ≡ ok (unfinished ls)
  get_unfinished_lem log ls h full fit whole =
      get_unfinished_tail log ls [] (h ∙ sym (append-nil _)) full fit whole (omega arith)

  -- Reading the log creates its file and changes nothing that it holds.
  pub get_unfinished-Holds :
      (log : CommitLog) (ls : List CommitLogLine)
      → Holds bincode log ls
      → Holds bincode (get_unfinished_transactions codec tokio log).1 ls
  unfolding get_unfinished_transactions
  get_unfinished-Holds log ls h = h

-- Reading the log makes its file.
pub get_unfinished-Made :
    (codec : Codec CommitLogLine) (tokio : AsyncIo) (log : CommitLog)
    → Made (get_unfinished_transactions codec tokio log).1
unfolding get_unfinished_transactions
get_unfinished-Made codec tokio log = refl
