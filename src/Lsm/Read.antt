-- ===== src/Lsm/Read.antt =====
-- `get` and `scan` of `LSMStore`, with `get_sstables_asc`, `sstables_for_key`, `search_sstables` and
-- `scan_sstables`. Opening an SSTable may create its file, so a read returns the directory.
use kave.Base.{Bool, false, Option, none, some, List, [], ◌∷◌, if◌then◌else◌}
use kave.Base.Bytes.{Bytes, beq}
use kave.Base.Map.{Map, get, insert_all}
use kave.Error.{Result, ok, ◌>>=◌, ◌▷◌}
use kave.Lsm.{Lsm, BloomFilter, BloomMap, sst, extension, sort_asc, sort_desc}
use kave.SsTable.{Directory}
use kave.SsTable.Interface.{Tables}
use kave.Store.{range_checked}
use kave.Value.{Value, present, tombstone, as_option}

-- `ext == "sst"`
unfoldable pub is_table : Bytes → Bool
unfolding extension
is_table name = elim (extension name) [ none ↦ false | some ext ↦ beq ext sst ]

-- The loop over the entries of the directory.
unfoldable pub table_names : Directory → List Bytes
table_names [] = []
table_names ((name, bytes) ∷ dir) =
    let rest = table_names dir in if is_table name then name ∷ rest else rest

unfoldable pub get_sstables_asc : Directory → List Bytes
unfolding table_names
get_sstables_asc dir = sort_asc (table_names dir)

-- `and_then(|v| v.as_option())`
unfoldable pub data_of : Option Value → Option Bytes
unfolding as_option
data_of none = none
data_of (some v) = as_option v

-- `scan`'s `filter_map`.
unfoldable pub live_values : Map Value → List Bytes
live_values [] = []
live_values ((k, present bytes) ∷ m) = bytes ∷ live_values m
live_values ((k, tombstone) ∷ m) = live_values m

module _ {Bloom : Type 0} (filters : BloomFilter Bloom) (tables : Tables) where
  -- The paths whose filter may contain the key, before they are sorted.
  unfoldable pub candidates : Bytes → BloomMap Bloom → List Bytes
  candidates key [] = []
  candidates key ((path, bloom) ∷ blooms) =
      let rest = candidates key blooms in if filters.contains bloom key then path ∷ rest else rest

  unfoldable pub sstables_for_key : Bytes → BloomMap Bloom → List Bytes
  unfolding candidates
  sstables_for_key key blooms = sort_desc (candidates key blooms)

  -- The loop of `search_sstables`: the first table that has the key ends it.
  unfoldable pub search_paths : Bytes → List Bytes → Directory → Result (Option Value) × Directory
  search_paths key [] dir = (ok none, dir)
  search_paths key (path ∷ paths) dir =
      tables.search path key dir
      ▷ elim [ some v ↦ λ dir'. (ok (some v), dir') | none ↦ λ dir'. search_paths key paths dir' ]

  unfoldable pub search_sstables : Bytes → Lsm Bloom → Result (Option Value) × Directory
  unfolding sstables_for_key search_paths
  search_sstables key s = search_paths key (sstables_for_key key s.bloom_map) s.directory

  -- The loop of `scan_sstables`: entries of later tables replace those of earlier ones.
  unfoldable pub scan_paths :
      Bytes → Bytes → List Bytes → Map Value → Directory → Result (Map Value) × Directory
  scan_paths from to [] kvs dir = (ok kvs, dir)
  scan_paths from to (path ∷ paths) kvs dir = tables.scan path from to dir ▷ λ entries dir'.
      scan_paths from to paths (insert_all entries kvs) dir'

  unfoldable pub scan_sstables : Bytes → Bytes → Lsm Bloom → Result (Map Value) × Directory
  unfolding scan_paths
  scan_sstables from to s = scan_paths from to (get_sstables_asc s.directory) [] s.directory

  -- The store, with the directory that a search left.
  unfoldable pub with_directory :
      {A : Type 0} → Lsm Bloom → Result A × Directory → Result A × Lsm Bloom
  with_directory s (found, dir) = (found, record s { directory = dir })

  -- The memtable first, then, if it has no data for the key, the tables.
  unfoldable pub lsm_get : Bytes → Lsm Bloom → Result (Option Bytes) × Lsm Bloom
  unfolding with_directory
  lsm_get k s = elim (data_of (get k s.memtable)) [
    | some bytes ↦ (ok (some bytes), s)
    | none ↦ with_directory s (search_sstables k s) ▷ λ v s'. (ok (data_of v), s')
  ]

  unfoldable pub lsm_scan : Bytes → Bytes → Lsm Bloom → Result (List Bytes) × Lsm Bloom
  unfolding with_directory
  lsm_scan from to s = with_directory s (scan_sstables from to s) ▷ λ stored s'. (
    (do
      fresh ← range_checked from to s.memtable
      ok (live_values (insert_all fresh (insert_all stored [])))),
    s',
  )
