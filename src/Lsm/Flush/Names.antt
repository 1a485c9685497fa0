-- ===== src/Lsm/Flush/Names.antt =====
-- File names: what a new table's file does to the list of the tables' files.
use kave.Base.Decimal.{digits_onto, to_string}
use kave.Base.{
  ℕ, zero, suc, ◌+◌, ◌/◌, ◌%◌, ltb, true, false, none, some, List, [], ◌∷◌, ◌++◌, ◌≡◌, refl, arith,
  ap, if◌then◌else◌, Bool-cases, inl, inr,
}
use kave.Base.Bytes.{Bytes, beq, blt, beq_iff, beq_refl, blt_irrefl, blt_asymm}
use kave.Base.Map.{Map, get, insert, Above, IsSorted}
use kave.Base.Map.Laws.{Above-mono, get-insert, insert-IsSorted}
use kave.Base.Map.Ext.{Map_ext}
use kave.Lsm.{table_name, after_last_dot, extension, sst}
use kave.Lsm.Invariant.{TableList, names_asc, NamesBelow}
use kave.Lsm.Read.{is_table, table_names}
use kave.SsTable.{Directory}

after_last_dot-append : (xs : Bytes) → after_last_dot (xs ++ b'.' ∷ sst) ≡ some sst
unfolding after_last_dot
after_last_dot-append [] = refl
after_last_dot-append (x ∷ xs) = rw (after_last_dot-append xs)

-- A list of names without those of other files.
abbrev pub AllBelow : Bytes → List Bytes → Type 0
AllBelow p [] = Unit
AllBelow p (q ∷ qs) = (blt q p ≡ true) × AllBelow p qs

table_names-none :
    (p : Bytes) (dir : Directory)
    → Above p dir
    → AllBelow p (table_names dir)
    → table_names dir ≡ []
unfolding table_names
table_names-none p [] a b = refl
table_names-none p ((q, x) ∷ dir) a b = elim (Bool-cases (is_table q)) [
  | inl here ↦ absurd_order (rw here at b)
  | inr not ↦ rw not (table_names-none p dir a.1 (rw not at b))
]
  where
    absurd_order :
        AllBelow p (q ∷ table_names dir)
        → (if is_table q then q ∷ table_names dir else table_names dir) ≡ []
    absurd_order c = cc (blt_asymm p q a.0, c.0)

-- A table's file with a name above those of the others comes last.
pub table_names-new :
    (p bytes : Bytes) (dir : Directory)
    → is_table p ≡ true
    → IsSorted dir
    → get p dir ≡ none
    → AllBelow p (table_names dir)
    → table_names (insert p bytes dir) ≡ table_names dir ++ p ∷ []
unfolding table_names insert get
table_names-new p bytes [] t s n b = rw t
table_names-new p bytes ((q, x) ∷ dir) t s n b = elim (Bool-cases (beq p q)) [
  | inl same ↦ cc (rw same at n)
  | inr differs ↦ elim (Bool-cases (blt p q)) [
    | inl before ↦
        rw (differs, before, t)
          (let rest = table_names-none p ((q, x) ∷ dir) (before, Above-mono p q dir before s.0) b in
            rw rest)
    | inr after ↦
        let n' : get p dir ≡ none = rw differs at n in
        elim (Bool-cases (is_table q)) [
          | inl here ↦
              let b' : AllBelow p (q ∷ table_names dir) = rw here at b in
              rw (differs, after, here) (ap (◌∷◌ q) (table_names-new p bytes dir t s.1 n' b'.1))
          | inr not ↦ rw (differs, after, not) (table_names-new p bytes dir t s.1 n' (rw not at b))
        ]
  ]
]

-- Writing the same name twice keeps the second contents.
pub insert-insert :
    {V : Type 0} (k : Bytes) (v w : V) (m : Map V)
    → IsSorted m
    → insert k v (insert k w m) ≡ insert k v m
insert-insert k v w m s =
    Map_ext (insert k v (insert k w m)) (insert k v m)
      (insert-IsSorted k v (insert k w m) (insert-IsSorted k w m s)) (insert-IsSorted k v m s)
      (λ i. ground (arith, get-insert i k v (insert k w m), get-insert i k w m, get-insert i k v m))

pub AllBelow-NamesBelow : (p : Bytes) (ts : TableList) → AllBelow p (names_asc ts) → NamesBelow p ts
unfolding names_asc
AllBelow-NamesBelow p [] b = tt
AllBelow-NamesBelow p ((q, m) ∷ ts) b =
    let parts = split (names_asc ts) b in (parts.1, AllBelow-NamesBelow p ts parts.0)
  where
    split : (qs : List Bytes) → AllBelow p (qs ++ q ∷ []) → AllBelow p qs × (blt q p ≡ true)
    split [] c = (tt, c.0)
    split (x ∷ qs) c = let parts = split qs c.1 in ((c.0, parts.0), parts.1)

-- What is below a name is another name.
pub below_differs : (q p : Bytes) → blt q p ≡ true → beq q p ≡ false
below_differs q p h = ground (arith, beq_iff q p, blt_irrefl p)

digits_onto-cons :
    (fuel n x : ℕ) (rest : Bytes)
    → (c : ℕ) × (cs : Bytes) × (digits_onto fuel n (x ∷ rest) ≡ c ∷ cs)
unfolding digits_onto
digits_onto-cons zero n x rest = (x, rest, refl)
digits_onto-cons (suc fuel) n x rest = elim (Bool-cases (ltb n 10)) [
  | inl small ↦ (48 + n, x ∷ rest, rw small)
  | inr large ↦
      let (c, cs, e) = digits_onto-cons fuel (n / 10) (48 + n % 10) (x ∷ rest) in
      (c, cs, rw large e)
]

to_string-cons : (n : ℕ) → (c : ℕ) × (cs : Bytes) × (to_string n ≡ c ∷ cs)
unfolding to_string
to_string-cons n = elim (Bool-cases (ltb n 10)) [
  | inl small ↦ (48 + n, [], rw small)
  | inr large ↦ let (c, cs, e) = digits_onto-cons n (n / 10) (48 + n % 10) [] in (c, cs, rw large e)
]

is_table-append : (c : ℕ) (cs : Bytes) → is_table (c ∷ (cs ++ b'.' ∷ sst)) ≡ true
unfolding is_table extension
is_table-append c cs = ground (arith, after_last_dot-append cs, beq_refl sst)

-- The file name that `write_sstable` makes of any time has the extension that `get_sstables_asc`
-- looks for.
pub is_table-table_name : (millis : ℕ) → is_table (table_name millis) ≡ true
unfolding table_name
is_table-table_name millis = let (c, cs, e) = to_string-cons millis in rw e (is_table-append c cs)
