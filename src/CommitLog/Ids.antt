-- ===== src/CommitLog/Ids.antt =====
-- The ids of the transactions that `get_unfinished_transactions` of commit_log.rs returns.
use mathlib.Core.Path.{subst}
use kave.Base.{
  ◌||◌, if◌then◌else◌, ◌==◌, false, List, [], ◌∷◌, ◌++◌, ◌≡◌, ◌≢◌, refl, ◌∙◌, ap, arith,
  append_assoc, append-nil, Bool-cases, inl, inr,
}
use kave.CommitLog.{CommitLogLine, begin_tx, end_tx}
use kave.CommitLog.Unfinished.{mentions, unfinished}
use kave.Store.{Uuid, Transaction}

-- Once its end is logged, a transaction is not among the unfinished; the others stay, in order.
unfoldable pub without : Uuid → List Transaction → List Transaction
without id [] = []
without id (tx ∷ txs) = let rest = without id txs in if tx.id == id then rest else tx ∷ rest

mentions-end :
    (i id : Uuid) (ls : List CommitLogLine)
    → mentions i (ls ++ end_tx id ∷ []) ≡ (mentions i ls || i == id)
unfolding mentions
mentions-end i id [] = ground arith
mentions-end i id (begin_tx tx ∷ ls) = ground (arith, mentions-end i id ls)
mentions-end i id (end_tx j ∷ ls) = ground (arith, mentions-end i id ls)

pub unfinished-end :
    (id : Uuid) (ls : List CommitLogLine)
    → unfinished (ls ++ end_tx id ∷ []) ≡ without id (unfinished ls)
unfolding unfinished without
unfinished-end id [] = refl
unfinished-end id (begin_tx tx ∷ ls) =
    ground (arith, mentions-end tx.id id ls, unfinished-end id ls)
unfinished-end id (end_tx j ∷ ls) = unfinished-end id ls

mentions-begin :
    (i : Uuid) (tx : Transaction) (ls : List CommitLogLine)
    → mentions i (ls ++ begin_tx tx ∷ []) ≡ (mentions i ls || i == tx.id)
unfolding mentions
mentions-begin i tx [] = ground arith
mentions-begin i tx (begin_tx t ∷ ls) = ground (arith, mentions-begin i tx ls)
mentions-begin i tx (end_tx j ∷ ls) = ground (arith, mentions-begin i tx ls)

-- A begun transaction is the last of the unfinished; a line with the same id is forgotten.
pub unfinished-begin :
    (tx : Transaction) (ls : List CommitLogLine)
    → unfinished (ls ++ begin_tx tx ∷ []) ≡ without tx.id (unfinished ls) ++ tx ∷ []
unfolding unfinished without mentions
unfinished-begin tx [] = refl
unfinished-begin tx (begin_tx t ∷ ls) =
    ground (arith, mentions-begin t.id tx ls, unfinished-begin tx ls)
unfinished-begin tx (end_tx j ∷ ls) = unfinished-begin tx ls

-- No transaction of the list has the id.
abbrev pub IsFresh : Uuid → List Transaction → Type 0
IsFresh id [] = Unit
IsFresh id (tx ∷ txs) = (tx.id ≢ id) × IsFresh id txs

abbrev pub Distinct : List Transaction → Type 0
Distinct [] = Unit
Distinct (tx ∷ txs) = IsFresh tx.id txs × Distinct txs

not_mentioned-IsFresh :
    (id : Uuid) (ls : List CommitLogLine) → mentions id ls ≡ false → IsFresh id (unfinished ls)
unfolding mentions unfinished
not_mentioned-IsFresh id [] h = tt
not_mentioned-IsFresh id (begin_tx tx ∷ ls) h = elim (Bool-cases (mentions tx.id ls)) [
  | inl again ↦ rw again (not_mentioned-IsFresh id ls (ground arith))
  | inr only ↦ rw only ((λ same. ground arith), not_mentioned-IsFresh id ls (ground arith))
]
not_mentioned-IsFresh id (end_tx j ∷ ls) h = not_mentioned-IsFresh id ls (ground arith)

pub unfinished-Distinct : (ls : List CommitLogLine) → Distinct (unfinished ls)
unfolding unfinished
unfinished-Distinct [] = tt
unfinished-Distinct (begin_tx tx ∷ ls) = elim (Bool-cases (mentions tx.id ls)) [
  | inl again ↦ rw again (unfinished-Distinct ls)
  | inr only ↦ rw only (not_mentioned-IsFresh tx.id ls only, unfinished-Distinct ls)
]
unfinished-Distinct (end_tx j ∷ ls) = unfinished-Distinct ls

without-IsFresh : (id : Uuid) (txs : List Transaction) → IsFresh id txs → without id txs ≡ txs
unfolding without
without-IsFresh id [] f = refl
without-IsFresh id (tx ∷ txs) f = ground (arith, f.0, without-IsFresh id txs f.1)

without-head :
    (tx : Transaction) (txs : List Transaction)
    → Distinct (tx ∷ txs)
    → without tx.id (tx ∷ txs) ≡ txs
unfolding without
without-head tx txs d = ground (arith, without-IsFresh tx.id txs d.0)

-- The lines that end the transactions.
abbrev pub end_lines : List Transaction → List CommitLogLine
end_lines [] = []
end_lines (tx ∷ txs) = end_tx tx.id ∷ end_lines txs

-- When the first of the unfinished are ended, in order, the others are left.
pub unfinished-end_lines :
    (done left : List Transaction) (ls : List CommitLogLine)
    → unfinished ls ≡ done ++ left
    → unfinished (ls ++ end_lines done) ≡ left
unfinished-end_lines [] left ls h = rw (append-nil ls) h
unfinished-end_lines (tx ∷ done) left ls h =
    rw (← append_assoc ls (end_tx tx.id ∷ []) (end_lines done)) (
      unfinished-end_lines done left (ls ++ end_tx tx.id ∷ []) (
        unfinished-end tx.id ls
        ∙ ap (without tx.id) h
        ∙ without-head tx (done ++ left) (subst Distinct h (unfinished-Distinct ls))))

-- A transaction with a fresh id joins the unfinished at the end.
pub unfinished-fresh :
    (tx : Transaction) (ls : List CommitLogLine)
    → IsFresh tx.id (unfinished ls)
    → unfinished (ls ++ begin_tx tx ∷ []) ≡ unfinished ls ++ tx ∷ []
unfinished-fresh tx ls f =
    unfinished-begin tx ls
    ∙ ap (λ (txs : List Transaction). txs ++ tx ∷ []) (without-IsFresh tx.id (unfinished ls) f)
