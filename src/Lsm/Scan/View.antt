-- ===== src/Lsm/Scan/View.antt =====
-- `scan` of store/lsm.rs, on the values of the keys.
use kave.Base.{
  Bool, true, false, Option, none, some, List, [], ◌∷◌, ◌++◌, ◌≡◌, refl, ◌∙◌, arith, ap,
  append_assoc,
}
use kave.Base.Bytes.{Bytes, blt, beq_iff}
use kave.Base.Map.{Map, get, insert_all, range, values, in_range, Above, IsSorted}
use kave.Base.Map.Laws.{
  over, get-range, get-insert_all, range-IsSorted, insert_all-IsSorted, Above-get,
}
use kave.Error.{Result, ok, panic, ◌▷◌}
use kave.Lsm.{Lsm, BloomFilter}
use kave.Lsm.Invariant.{TableList, found_in, names_asc, Filed, Sound, view_of}
use kave.Lsm.Read.{scan_paths, scan_sstables, lsm_scan, live_values, data_of, with_directory}
use kave.Lsm.Scan.{
  merged, merged-IsSorted, when, over-when, get-merged, scan_sstables_lem, get_sstables_asc_lem,
}
use kave.SsTable.{Directory}
use kave.SsTable.Interface.{Tables, IsTables}
use kave.Store.{range_checked}
use kave.Store.Contract.{Scans}
use kave.Value.{Value, present, tombstone}

-- The entries that hold data.
live : Map Value → Map Bytes
live [] = []
live ((k, present bytes) ∷ m) = (k, bytes) ∷ live m
live ((k, tombstone) ∷ m) = live m

values-live : (m : Map Value) → values (live m) ≡ live_values m
unfolding live live_values values
values-live [] = refl
values-live ((k, present bytes) ∷ m) = ap (◌∷◌ bytes) (values-live m)
values-live ((k, tombstone) ∷ m) = values-live m

Above-live : (p : Bytes) (m : Map Value) → Above p m → Above p (live m)
unfolding live
Above-live p [] a = tt
Above-live p ((k, present bytes) ∷ m) a = (a.0, Above-live p m a.1)
Above-live p ((k, tombstone) ∷ m) a = Above-live p m a.1

live-IsSorted : (m : Map Value) → IsSorted m → IsSorted (live m)
unfolding live
live-IsSorted [] s = tt
live-IsSorted ((k, present bytes) ∷ m) s = (Above-live k m s.0, live-IsSorted m s.1)
live-IsSorted ((k, tombstone) ∷ m) s = live-IsSorted m s.1

get-live : (k : Bytes) (m : Map Value) → IsSorted m → get k (live m) ≡ data_of (get k m)
unfolding live get data_of
get-live k [] s = refl
get-live k ((j, present bytes) ∷ m) s = ground (arith, get-live k m s.1)
get-live k ((j, tombstone) ∷ m) s = ground (arith, get-live k m s.1, beq_iff k j, Above-get j m s.0)

data_of-when : (b : Bool) (o : Option Value) → data_of (when b o) ≡ when b (data_of o)
unfolding data_of
data_of-when true o = refl
data_of-when false o = refl

over-none : (o : Option Value) → over o none ≡ o
over-none none = refl
over-none (some v) = refl

module _ {Bloom : Type 0} (filters : BloomFilter Bloom) {tables : Tables}
    (laws : IsTables tables) where
  -- What `scan` collects.
  collected : Bytes → Bytes → Map Value → TableList → Map Value
  collected from to memtable ts =
      insert_all (range from to memtable) (insert_all (merged from to ts) [])

  collected-IsSorted :
      (from to : Bytes) (memtable : Map Value) (ts : TableList)
      → IsSorted (collected from to memtable ts)
  unfolding collected
  collected-IsSorted from to memtable ts =
      insert_all-IsSorted (range from to memtable) _ (insert_all-IsSorted (merged from to ts) [] tt)

  get-collected :
      (from to : Bytes) (s : Lsm Bloom) (ts : TableList) (k : Bytes)
      → Sound laws filters s ts
      → get k (collected from to s.memtable ts)
        ≡ when (in_range from to k) (over (get k s.memtable) (found_in k ts))
  unfolding collected get
  get-collected from to s ts k h =
      get-insert_all k (range from to s.memtable) _
        (range-IsSorted from to s.memtable h.memtable_sorted)
      ∙ ap (over (get k (range from to s.memtable))) (
          get-insert_all k (merged from to ts) [] (merged-IsSorted from to ts)
          ∙ over-none (get k (merged from to ts))
          ∙ get-merged filters laws from to s.directory ts k h.disk.filed)
      ∙ ap (λ (o : Option Value). over o (when (in_range from to k) (found_in k ts)))
          (get-range k from to s.memtable)
      ∙ over-when (in_range from to k) (get k s.memtable) (found_in k ts)

  lsm_scan_lem :
      (from to : Bytes) (s : Lsm Bloom) (ts : TableList)
      → Sound laws filters s ts
      → blt to from ≡ false
      → lsm_scan filters tables from to s ≡ (ok (live_values (collected from to s.memtable ts)), s)
  unfolding lsm_scan range_checked collected
  lsm_scan_lem from to s ts h o = rw (scan_sstables_lem filters laws from to s ts o h, o)

  -- In a sound state, `scan` over a range that does not start after its end changes nothing and
  -- returns the values of the keys in the range, in the order of the keys, without those that are
  -- deleted; what a newer table or the memtable has for a key hides what older tables have. The
  -- tables keep their interface.
  pub lsm_scan-Scans :
      (from to : Bytes) (s : Lsm Bloom) (ts : TableList)
      → Sound laws filters s ts
      → blt to from ≡ false
      → (vs : List Bytes) × (lsm_scan filters tables from to s ≡ (ok vs, s))
        × Scans (view_of s.memtable ts) from to vs
  unfolding view_of
  lsm_scan-Scans from to s ts h o =
      let all = collected from to s.memtable ts in
      (
        live_values all,
        lsm_scan_lem from to s ts h o,
        record {
          entries = live all;
          sorted = live-IsSorted all (collected-IsSorted from to s.memtable ts);
          found = λ k.
              get-live k all (collected-IsSorted from to s.memtable ts)
              ∙ ap data_of (get-collected from to s ts k h)
              ∙ data_of-when (in_range from to k) (over (get k s.memtable) (found_in k ts));
          listed = values-live all;
        },
      )

  scan_step-panic :
      (from to p : Bytes) (ps : List Bytes) (kvs : Map Value) (dir : Directory)
      → tables.scan p from to dir ≡ (panic, dir)
      → (scan_paths filters tables from to (p ∷ ps) kvs dir).0 ≡ panic
  unfolding scan_paths
  scan_step-panic from to p ps kvs dir h = rw (scan_paths, h)

  scan_tables-panic :
      (from to : Bytes) (dir : Directory) (ts : TableList) (later : List Bytes)
      → blt to from ≡ true
      → Filed laws dir ts
      → (scan_paths filters tables from to later [] dir).0 ≡ panic
      → (scan_paths filters tables from to (names_asc ts ++ later) [] dir).0 ≡ panic
  unfolding names_asc
  scan_tables-panic from to dir [] later o f e = e
  scan_tables-panic from to dir ((p, m) ∷ ts) later o f e =
      rw (append_assoc (names_asc ts) (p ∷ []) later) (
        scan_tables-panic from to dir ts (p ∷ later) o f.3
          (scan_step-panic from to p later [] dir (laws.scan_panic p m dir from to o f.0 f.2)))

  panic_first :
      {A B : Type 0} (s : Lsm Bloom) (r : Result A × Directory)
      (f : A → Lsm Bloom → Result B × Lsm Bloom)
      → r.0 ≡ panic
      → (with_directory filters tables s r ▷ f).0 ≡ panic
  unfolding with_directory
  panic_first s (r, dir) f h = rw h

  -- In a sound state, a scan over a range that starts after its end panics, with tables or without.
  -- The tables keep their interface.
  pub lsm_scan-panic :
      (from to : Bytes) (s : Lsm Bloom) (ts : TableList)
      → Sound laws filters s ts
      → blt to from ≡ true
      → (lsm_scan filters tables from to s).0 ≡ panic
  unfolding lsm_scan names_asc
  lsm_scan-panic from to s [] h o =
      unfold scan_sstables scan_paths with_directory range_checked in
      rw (get_sstables_asc_lem s.directory h.disk.sorted, h.disk.listed, names_asc, o)
  lsm_scan-panic from to s ((p, m) ∷ ts) h o =
      panic_first s (scan_sstables filters tables from to s) _ (
        unfold scan_sstables in
        rw (get_sstables_asc_lem s.directory h.disk.sorted, h.disk.listed)
          (unfold names_asc in
            scan_tables-panic from to s.directory ts (p ∷ []) o h.disk.filed.3 (
              scan_step-panic from to p [] [] s.directory
                (laws.scan_panic p m s.directory from to o h.disk.filed.0 h.disk.filed.2))))
