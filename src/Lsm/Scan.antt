-- ===== src/Lsm/Scan.antt =====
-- `scan_sstables` and `scan` of store/lsm.rs, on a state given by its tables.
pub mod View
use kave.Base.{
  Bool, true, false, Option, none, some, List, [], ◌∷◌, ◌++◌, ◌≡◌, refl, ◌∙◌, sym, arith, ap, inl,
  inr, Bool-cases, if◌then◌else◌, append_assoc, append-nil,
}
use kave.Base.Bytes.{Bytes, beq, blt, beq_iff, blt_asymm}
use kave.Base.Map.{Map, get, insert_all, range, values, in_range, Above, IsSorted}
use kave.Base.Map.Laws.{
  over, get-range, get-insert_all, range-IsSorted, insert_all-IsSorted, Above-mono, Above-get,
}
use kave.Error.{Result, ok, panic, ◌>>=◌}
use kave.Lsm.{Lsm, BloomFilter, place_asc, sort_asc}
use kave.Lsm.Invariant.{TableList, found_in, names_asc, Filed, OnDisk, Sound, view_of}
use kave.Lsm.Read.{
  is_table, table_names, get_sstables_asc, scan_paths, scan_sstables, lsm_scan, live_values,
  data_of,
}
use kave.SsTable.{Directory}
use kave.SsTable.Interface.{Tables, IsTables}
use kave.Store.{range_checked}
use kave.Value.{Value, present, tombstone, as_option}

-- The names are above `p`.
abbrev ListAbove : Bytes → List Bytes → Type 0
ListAbove p [] = Unit
ListAbove p (q ∷ qs) = (blt p q ≡ true) × ListAbove p qs

abbrev ListAscends : List Bytes → Type 0
ListAscends [] = Unit
ListAscends (p ∷ ps) = ListAbove p ps × ListAscends ps

sort_asc-ListAscends : (ps : List Bytes) → ListAscends ps → sort_asc ps ≡ ps
unfolding sort_asc
sort_asc-ListAscends [] d = refl
sort_asc-ListAscends (p ∷ []) d = refl
sort_asc-ListAscends (p ∷ q ∷ ps) d =
    rw (sort_asc-ListAscends (q ∷ ps) d.1) (ground (arith, blt_asymm p q))

table_names-ListAbove : (p : Bytes) (dir : Directory) → Above p dir → ListAbove p (table_names dir)
unfolding table_names
table_names-ListAbove p [] a = tt
table_names-ListAbove p ((q, b) ∷ dir) a = elim (Bool-cases (is_table q)) [
  | inl here ↦ rw here (a.0, table_names-ListAbove p dir a.1)
  | inr not ↦ rw not (table_names-ListAbove p dir a.1)
]

table_names-ListAscends : (dir : Directory) → IsSorted dir → ListAscends (table_names dir)
unfolding table_names
table_names-ListAscends [] s = tt
table_names-ListAscends ((q, b) ∷ dir) s = elim (Bool-cases (is_table q)) [
  | inl here ↦ rw here (table_names-ListAbove q dir s.0, table_names-ListAscends dir s.1)
  | inr not ↦ rw not (table_names-ListAscends dir s.1)
]

-- The table files of a directory, oldest name first.
pub get_sstables_asc_lem : (dir : Directory) → IsSorted dir → get_sstables_asc dir ≡ table_names dir
unfolding get_sstables_asc
get_sstables_asc_lem dir s = sort_asc-ListAscends (table_names dir) (table_names-ListAscends dir s)

-- The entries of the range in all tables, a newer table's over an older's.
unfoldable pub merged : Bytes → Bytes → TableList → Map Value
merged from to [] = []
merged from to ((p, m) ∷ ts) = insert_all (range from to m) (merged from to ts)

pub merged-IsSorted : (from to : Bytes) (ts : TableList) → IsSorted (merged from to ts)
unfolding merged
merged-IsSorted from to [] = tt
merged-IsSorted from to ((p, m) ∷ ts) =
    insert_all-IsSorted (range from to m) (merged from to ts) (merged-IsSorted from to ts)

-- A value, if the test holds.
abbrev pub when : {A : Type 0} → Bool → Option A → Option A
when b o = if b then o else none

when-none : {A : Type 0} (b : Bool) → none ≡ when {A = A} b none
when-none true = refl
when-none false = refl

pub over-when :
    {A : Type 0} (b : Bool) (x y : Option A) → over (when b x) (when b y) ≡ when b (over x y)
over-when true x y = refl
over-when false x y = refl

module _ {Bloom : Type 0} (filters : BloomFilter Bloom) {tables : Tables}
    (laws : IsTables tables) where
  pub get-merged :
      (from to : Bytes) (dir : Directory) (ts : TableList) (k : Bytes)
      → Filed laws dir ts
      → get k (merged from to ts) ≡ when (in_range from to k) (found_in k ts)
  unfolding merged found_in get
  get-merged from to dir [] k f = when-none (in_range from to k)
  get-merged from to dir ((p, m) ∷ ts) k f =
      get-insert_all k (range from to m) (merged from to ts) (range-IsSorted from to m f.1)
      ∙ ap (λ (o : Option Value). over o (get k (merged from to ts))) (get-range k from to m)
      ∙ ap (over (when (in_range from to k) (get k m))) (get-merged from to dir ts k f.3)
      ∙ over-when (in_range from to k) (get k m) (found_in k ts)

  scan_step :
      (from to p : Bytes) (ps : List Bytes) (kvs entries : Map Value) (dir : Directory)
      → tables.scan p from to dir ≡ (ok entries, dir)
      → scan_paths filters tables from to (p ∷ ps) kvs dir
        ≡ scan_paths filters tables from to ps (insert_all entries kvs) dir
  unfolding scan_paths
  scan_step from to p ps kvs entries dir h = rw (h, scan_paths)

  scan_tables :
      (from to : Bytes) (dir : Directory) (ts : TableList) (later : List Bytes)
      → blt to from ≡ false
      → Filed laws dir ts
      → scan_paths filters tables from to (names_asc ts ++ later) [] dir
        ≡ scan_paths filters tables from to later (merged from to ts) dir
  unfolding names_asc merged
  scan_tables from to dir [] later o f = refl
  scan_tables from to dir ((p, m) ∷ ts) later o f =
      rw (append_assoc (names_asc ts) (p ∷ []) later) (
        scan_tables from to dir ts (p ∷ later) o f.3
        ∙ scan_step from to p later (merged from to ts) (range from to m) dir
            (laws.scan_ok p m dir from to o f.0 f.2))

  pub scan_sstables_lem :
      (from to : Bytes) (s : Lsm Bloom) (ts : TableList)
      → blt to from ≡ false
      → Sound laws filters s ts
      → scan_sstables filters tables from to s ≡ (ok (merged from to ts), s.directory)
  unfolding scan_sstables
  scan_sstables_lem from to s ts o h =
      rw
        (get_sstables_asc_lem s.directory h.disk.sorted, h.disk.listed, ← append-nil (names_asc ts))
        (scan_tables from to s.directory ts [] o h.disk.filed ∙ unfold scan_paths in refl)
