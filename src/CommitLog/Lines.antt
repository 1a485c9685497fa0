-- ===== src/CommitLog/Lines.antt =====
-- The file of commit_log.rs as the lines that it holds.
use Prim.Native.Nat.add
use native.Mathlib.Nat.{add-zero}
use kave.Base.{
  ℕ, suc, ◌+◌, ◌-◌, ◌<◌, ◌≤◌, Option, none, some, List, [], ◌∷◌, ◌++◌, ◌≡◌, refl, sym, ap, ◌∙◌,
  arith, length, length-append, append_assoc, true, leb, append-nil, Bool-cases, inl, inr,
}
use kave.Base.Bytes.{Bytes}
use kave.Base.Words.{to_be_bytes, length-to_be_bytes}
use kave.Error.{ok}
use kave.External.{Codec, IsBincode, AsyncIo, IsBigEndian, FullReads}
use kave.Store.{Uuid, Transaction}
use kave.CommitLog.{
  CommitLogLine, grew, written_at, begin_tx, end_tx, CommitLog, created, Pending, apply_line,
  encode, decode_from, append_line, begin_transaction, end_transaction, read_lines, read_all,
  record_room, get_write_handle, write_all,
}

-- What the loop makes of the lines of the log.
unfoldable pub apply_lines : ℕ → List CommitLogLine → Pending → Pending
apply_lines i [] txs = txs
apply_lines i (l ∷ ls) txs = apply_lines (i + 1) ls (apply_line i l txs)

-- The log's file exists.
abbrev pub Made : CommitLog → Type 0
Made log = log.file ≡ some (created log.file)

grew_lem : (a b : Option Bytes) → length (created a) < length (created b) → grew a b ≡ true
unfolding grew
grew_lem none none h = absurd (omega (arith, h))
grew_lem none (some new_bytes) h = refl
grew_lem (some old_bytes) none h = absurd (omega (arith, h))
grew_lem (some old_bytes) (some new_bytes) h = ground (arith, h)

pub written_at-grown :
    (old left : CommitLog) (before now : ℕ)
    → length (created old.file) < length (created left.file)
    → written_at old left before now ≡ now
unfolding written_at
written_at-grown old left before now h = rw (grew_lem old.file left.file h) refl

pub written_at_between :
    (old left : CommitLog) (before now : ℕ)
    → before ≤ now
    → (before ≤ written_at old left before now) × (written_at old left before now ≤ now)
unfolding written_at
written_at_between old left before now h = elim (Bool-cases (grew old.file left.file)) [
  | inl longer ↦ rw longer (h, omega arith)
  | inr same ↦ rw same (omega arith, h)
]

module _ {codec : Codec CommitLogLine} (bincode : IsBincode codec) where
  -- The bytes of one record: its size, and its encoding.
  abbrev pub record_of : CommitLogLine → Bytes
  record_of line = to_be_bytes (length (bincode.encoding line)) ++ bincode.encoding line

  abbrev pub bytes_of : List CommitLogLine → Bytes
  bytes_of [] = []
  bytes_of (l ∷ ls) = record_of l ++ bytes_of ls

  -- Every encoding fits in so much room.
  abbrev pub Fit : ℕ → List CommitLogLine → Type 0
  Fit room [] = Unit
  Fit room (l ∷ ls) = (length (bincode.encoding l) ≤ room) × Fit room ls

  -- The file holds exactly these lines. No file holds no line.
  abbrev pub Holds : CommitLog → List CommitLogLine → Type 0
  Holds log ls = created log.file ≡ bytes_of ls

  pub bytes_of-append :
      (ls ms : List CommitLogLine) → bytes_of (ls ++ ms) ≡ bytes_of ls ++ bytes_of ms
  bytes_of-append [] ms = refl
  bytes_of-append (l ∷ ls) ms =
      rw (bytes_of-append ls ms) (sym (append_assoc (record_of l) (bytes_of ls) (bytes_of ms)))

  length-bytes_of-le : (ls : List CommitLogLine) → length ls ≤ length (bytes_of ls)
  length-bytes_of-le [] = omega arith
  length-bytes_of-le (l ∷ ls) =
      let size = to_be_bytes (length (bincode.encoding l)) in
      omega (
        arith,
        length-append (record_of l) (bytes_of ls),
        length-append size (bincode.encoding l),
        length-to_be_bytes (length (bincode.encoding l)),
        length-bytes_of-le ls,
      )

  -- The rounds of the loop that are left behind whole records at the front of a file.
  abbrev pub spare : List CommitLogLine → Bytes → ℕ
  spare ls tail = length (bytes_of ls ++ tail) - length ls

  pub rounds_lem :
      (ls : List CommitLogLine) (tail : Bytes)
      → suc (length (bytes_of ls ++ tail)) ≡ length ls + suc (spare ls tail)
  rounds_lem ls tail = omega (arith, length-append (bytes_of ls) tail, length-bytes_of-le ls)

  encode_lem : (line : CommitLogLine) → encode codec line ≡ ok (record_of line)
  unfolding encode
  encode_lem line = rw (bincode.serialized_size_ok line, bincode.serialize_ok line)

  created-write :
      (bytes : Bytes) (log : CommitLog)
      → created (write_all bytes (get_write_handle log)).file ≡ created log.file ++ bytes
  unfolding write_all get_write_handle
  created-write bytes log = elim (Bool-cases log.logfile) [ inl h ↦ rw h | inr h ↦ rw h ]

  append_line_lem :
      (line : CommitLogLine) (log : CommitLog) (ls : List CommitLogLine)
      → Holds log ls
      → ((append_line codec line log).0 ≡ ok tt)
        × Holds (append_line codec line log).1 (ls ++ line ∷ [])
  unfolding append_line
  append_line_lem line log ls h =
      rw (encode_lem line, append_line)
        (
          refl,
          created-write (record_of line) log
              ∙ ap (λ (b : Bytes). b ++ record_of line) h
              ∙ ap (λ (b : Bytes). bytes_of ls ++ b) (sym (append-nil (record_of line)))
              ∙ sym (bytes_of-append ls (line ∷ [])),
        )

  -- If the log file holds the records of some lines, `begin_transaction` returns `Ok`, and the file
  -- then holds those records and behind them that of the line that begins the transaction, whether
  -- the file was open or not. The codec keeps its laws.
  pub begin_transaction-Holds :
      (tx : Transaction) (log : CommitLog) (ls : List CommitLogLine)
      → Holds log ls
      → ((begin_transaction codec tx log).0 ≡ ok tt)
        × Holds (begin_transaction codec tx log).1 (ls ++ begin_tx tx ∷ [])
  unfolding begin_transaction
  begin_transaction-Holds tx log ls h = append_line_lem (begin_tx tx) log ls h

  pub end_transaction-Holds :
      (id : Uuid) (log : CommitLog) (ls : List CommitLogLine)
      → Holds log ls
      → ((end_transaction codec id log).0 ≡ ok tt)
        × Holds (end_transaction codec id log).1 (ls ++ end_tx id ∷ [])
  unfolding end_transaction
  end_transaction-Holds id log ls h = append_line_lem (end_tx id) log ls h

  append_line-grows :
      (line : CommitLogLine) (log : CommitLog)
      → length (created (append_line codec line log).1.file)
        ≡ length (created log.file) + (8 + length (bincode.encoding line))
  unfolding append_line
  append_line-grows line log =
      let size = to_be_bytes (length (bincode.encoding line)) in
      rw (encode_lem line, append_line, created-write (record_of line) log)
        (omega (
          arith,
          length-append (created log.file) (record_of line),
          length-append size (bincode.encoding line),
          length-to_be_bytes (length (bincode.encoding line)),
        ))

  -- The record of the line is what the file grows by.
  pub begin_transaction-grows :
      (tx : Transaction) (log : CommitLog)
      → length (created (begin_transaction codec tx log).1.file)
        ≡ length (created log.file) + (8 + length (bincode.encoding (begin_tx tx)))
  unfolding begin_transaction
  begin_transaction-grows tx log = append_line-grows (begin_tx tx) log

  pub end_transaction-grows :
      (id : Uuid) (log : CommitLog)
      → length (created (end_transaction codec id log).1.file)
        ≡ length (created log.file) + (8 + length (bincode.encoding (end_tx id)))
  unfolding end_transaction
  end_transaction-grows id log = append_line-grows (end_tx id) log

  append_line-Made : (line : CommitLogLine) (log : CommitLog) → Made (append_line codec line log).1
  unfolding append_line write_all
  append_line-Made line log = rw (encode_lem line, append_line) refl

  pub begin_transaction-Made :
      (tx : Transaction) (log : CommitLog) → Made (begin_transaction codec tx log).1
  unfolding begin_transaction
  begin_transaction-Made tx log = append_line-Made (begin_tx tx) log

  pub end_transaction-Made : (id : Uuid) (log : CommitLog) → Made (end_transaction codec id log).1
  unfolding end_transaction
  end_transaction-Made id log = append_line-Made (end_tx id) log

  module _ {tokio : AsyncIo} (big_endian : IsBigEndian tokio) where
    record_room_lem : (size : ℕ) → size ≤ tokio.vec_room → record_room codec tokio size ≡ size
    unfolding record_room
    record_room_lem size h =
        let fits : leb size tokio.vec_room ≡ true = ground (arith, h) in rw fits refl

    -- One record at the front of a stream is read, and the stream goes on behind it.
    pub decode_from-record :
        (line : CommitLogLine) (rest : Bytes)
        → FullReads tokio
        → length (bincode.encoding line) ≤ tokio.vec_room
        → length (record_of line ++ rest) ≤ tokio.buffer_size
        → decode_from codec tokio (record_of line ++ rest) ≡ ok (some (line, rest))
    unfolding decode_from
    decode_from-record line rest full fits whole =
        let body = bincode.encoding line in
        let size = to_be_bytes (length body) in
        let split = append_assoc size body rest in
        let held : length (body ++ rest) ≤ tokio.buffer_size =
          omega (arith, ap length split, length-append size (body ++ rest), whole) in
        rw
          (
            split,
            big_endian.read_u64_ok (length body) (body ++ rest)
                (omega (arith, full.room_fits, fits)),
            record_room_lem (length body) fits,
            full.fills body rest held,
          )
          (rw (ap codec.deserialize (sym (append-nil body)) ∙ bincode.deserialize_ok line []))

    pub decode_from-end :
        (stream : Bytes) → length stream < 8 → decode_from codec tokio stream ≡ ok none
    unfolding decode_from
    decode_from-end stream h = rw (big_endian.read_u64_eof stream h)

    -- The loop over whole records, whatever follows them.
    pub read_lines-bytes_of :
        (ls : List CommitLogLine) (fuel i : ℕ) (txs : Pending) (rest : Bytes)
        → FullReads tokio
        → Fit tokio.vec_room ls
        → length (bytes_of ls ++ rest) ≤ tokio.buffer_size
        → read_lines codec tokio (length ls + fuel) (bytes_of ls ++ rest) i txs
          ≡ read_lines codec tokio fuel rest (i + length ls) (apply_lines i ls txs)
    unfolding read_lines apply_lines
    read_lines-bytes_of [] fuel i txs rest full fit whole = rw (add.zero fuel, add-zero i)
    read_lines-bytes_of (l ∷ ls) fuel i txs rest full fit whole =
        let split = append_assoc (record_of l) (bytes_of ls) rest in
        let here : length (record_of l ++ (bytes_of ls ++ rest)) ≤ tokio.buffer_size =
          rw (← split) whole in
        let behind : length (bytes_of ls ++ rest) ≤ tokio.buffer_size =
          omega (arith, length-append (record_of l) (bytes_of ls ++ rest), here) in
        let step = decode_from-record l (bytes_of ls ++ rest) full fit.0 here in
        let next =
          read_lines-bytes_of ls fuel (i + 1) (apply_line i l txs) rest full fit.1 behind in
        let count : i + 1 + length ls ≡ i + suc (length ls) = omega arith in
        rw (add.suc (length ls) fuel, split, step, ← count) next

    pub read_all-bytes_of :
        (ls : List CommitLogLine) (tail : Bytes)
        → FullReads tokio
        → Fit tokio.vec_room ls
        → length (bytes_of ls ++ tail) ≤ tokio.buffer_size
        → read_all codec tokio (bytes_of ls ++ tail)
          ≡ read_lines codec tokio (suc (spare ls tail)) tail (0 + length ls) (apply_lines 0 ls [])
    unfolding read_all
    read_all-bytes_of ls tail full fit whole =
        rw (rounds_lem ls tail)
          (read_lines-bytes_of ls (suc (spare ls tail)) 0 [] tail full fit whole)
