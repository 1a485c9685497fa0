-- ===== src/Lsm/Lifetime/Files.antt =====
-- The file of the bloom map, in the data directory of store/lsm.rs beside the files of the tables.
use mathlib.Core.Path.{subst}
use kave.Base.{ℕ, true, false, List, [], ◌∷◌, ◌++◌, ◌≡◌, refl, ◌∙◌, arith, Bool-cases, inl, inr}
use kave.Base.Bytes.{Bytes, beq, beq_iff}
use kave.Base.Map.{insert}
use kave.Base.Map.Laws.{get-insert, insert-IsSorted}
use kave.Lsm.{bloom_path, table_name}
use kave.Lsm.Flush.Names.{is_table-table_name}
use kave.Lsm.Invariant.{TableList, names_asc, Filed, OnDisk}
use kave.Lsm.Read.{is_table, table_names}
use kave.SsTable.{Directory}
use kave.SsTable.Interface.{Tables, IsTables}

pub bloom_path-other : is_table bloom_path ≡ false
unfolding is_table beq
bloom_path-other = refl

differs : (p q : Bytes) → is_table p ≡ false → is_table q ≡ true → beq p q ≡ false
differs p q h t = elim (Bool-cases (beq p q)) [
  | inl same ↦ let e = (beq_iff p q).0 same in cc (h, t, e)
  | inr other ↦ other
]

pub bloom_path-table_name : (millis : ℕ) → beq bloom_path (table_name millis) ≡ false
bloom_path-table_name millis =
    differs bloom_path (table_name millis) bloom_path-other (is_table-table_name millis)

table_names-other :
    (p bytes : Bytes) (dir : Directory)
    → is_table p ≡ false
    → table_names (insert p bytes dir) ≡ table_names dir
unfolding table_names insert
table_names-other p bytes [] h = rw h
table_names-other p bytes ((q, x) ∷ dir) h =
    ground (arith, h, beq_iff p q, table_names-other p bytes dir h)

abbrev AllTables : List Bytes → Type 0
AllTables [] = Unit
AllTables (p ∷ ps) = (is_table p ≡ true) × AllTables ps

table_names-AllTables : (dir : Directory) → AllTables (table_names dir)
unfolding table_names
table_names-AllTables [] = tt
table_names-AllTables ((q, x) ∷ dir) = elim (Bool-cases (is_table q)) [
  | inl here ↦ rw here (here, table_names-AllTables dir)
  | inr not ↦ rw not (table_names-AllTables dir)
]

AllTables-last :
    (ps : List Bytes) (p : Bytes) → AllTables (ps ++ p ∷ []) → AllTables ps × (is_table p ≡ true)
AllTables-last [] p h = (tt, h.0)
AllTables-last (q ∷ ps) p h = let rest = AllTables-last ps p h.1 in ((h.0, rest.0), rest.1)

module _ {tables : Tables} (laws : IsTables tables) where
  Filed-other :
      (p bytes : Bytes) (dir : Directory) (ts : TableList)
      → is_table p ≡ false
      → AllTables (names_asc ts)
      → Filed laws dir ts
      → Filed laws (insert p bytes dir) ts
  unfolding names_asc
  Filed-other p bytes dir [] h a f = tt
  Filed-other p bytes dir ((q, m) ∷ ts) h a f =
      let rest = AllTables-last (names_asc ts) q a in
      let other : beq q p ≡ false =
        ground (arith, differs p q h rest.1, beq_iff p q, beq_iff q p) in
      (get-insert q p bytes dir ∙ rw other f.0, f.1, f.2, Filed-other p bytes dir ts h rest.0 f.3)

  -- A file that is no table leaves the tables as they are.
  pub OnDisk-other :
      (p bytes : Bytes) (dir : Directory) (ts : TableList)
      → is_table p ≡ false
      → OnDisk laws dir ts
      → OnDisk laws (insert p bytes dir) ts
  OnDisk-other p bytes dir ts h d = record {
    sorted = insert-IsSorted p bytes dir d.sorted;
    filed =
        Filed-other p bytes dir ts h (subst AllTables d.listed (table_names-AllTables dir)) d.filed;
    descends = d.descends;
    listed = table_names-other p bytes dir h ∙ d.listed;
  }
