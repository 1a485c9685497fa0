-- ===== src/Lsm/Recovery/Torn.antt =====
-- `initialize` of store/lsm.rs behind a flush that made the table's file and wrote nothing to it.
use mathlib.Core.Path.{subst}
use kave.Base.{◌<◌, none, some, List, [], ◌∷◌, ◌++◌, ◌≡◌, refl, ◌∙◌, ap, length}
use kave.Base.Bytes.{Bytes, beq_refl}
use kave.Base.Map.{get, insert}
use kave.Base.Map.Laws.{get-insert, insert-IsSorted}
use kave.CommitLog.Interface.{Logs}
use kave.Error.{ok, err, io, unexpected_eof}
use kave.External.{Codec}
use kave.Lsm.{Lsm, BloomFilter, BloomMap, table_name}
use kave.Lsm.Flush.{IsNewest, Filed-insert}
use kave.Lsm.Flush.Names.{AllBelow, AllBelow-NamesBelow, table_names-new, is_table-table_name}
use kave.Lsm.Invariant.{TableList, names_asc, OnDisk}
use kave.Lsm.Read.{get_sstables_asc}
use kave.Lsm.Recovery.{
  reconstruct, reconstruct_bloom_map_from_sstables, keep_bloom_map, restore_bloom_map,
  restore_bloom_map_from_file, initialize,
}
use kave.Lsm.Recovery.Blooms.{reconstruct-tables}
use kave.Lsm.Recovery.Crash.{reopened, restart}
use kave.Lsm.Scan.{get_sstables_asc_lem}
use kave.SsTable.Interface.{Tables, IsTables}

-- The files of a process that ended when it had opened the new table's file and written some bytes.
unfoldable pub torn_flush : {Bloom : Type 0} → Bytes → Lsm Bloom → Lsm Bloom
torn_flush bytes s = record s { directory = insert (table_name s.clock) bytes s.directory }

module _ {Bloom : Type 0} (filters : BloomFilter Bloom) {tables : Tables} (laws : IsTables tables)
    (logs : Logs) (codec : Codec (BloomMap Bloom)) where
  names_behind :
      (s : Lsm Bloom) (bytes : Bytes) (ts : TableList)
      → OnDisk laws s.directory ts
      → IsNewest laws (table_name s.clock) s.directory
      → get_sstables_asc (insert (table_name s.clock) bytes s.directory)
        ≡ names_asc ts ++ table_name s.clock ∷ []
  names_behind s bytes ts d new =
      let name = table_name s.clock in
      get_sstables_asc_lem (insert name bytes s.directory)
        (insert-IsSorted name bytes s.directory d.sorted)
      ∙ table_names-new name bytes s.directory (is_table-table_name s.clock) d.sorted new.free
          new.above
      ∙ ap (λ (ns : List Bytes). ns ++ name ∷ []) d.listed

  reconstruct-torn :
      (s : Lsm Bloom) (bytes : Bytes) (ts : TableList)
      → OnDisk laws s.directory ts
      → IsNewest laws (table_name s.clock) s.directory
      → length bytes < 8
      → reconstruct filters tables
          (names_asc ts ++ table_name s.clock ∷ [])
          []
          (insert (table_name s.clock) bytes s.directory)
        ≡ (err (io unexpected_eof), insert (table_name s.clock) bytes s.directory)
  unfolding reconstruct
  reconstruct-torn s bytes ts d new short =
      let name = table_name s.clock in
      let dir = insert name bytes s.directory in
      let below = AllBelow-NamesBelow name ts (subst (AllBelow name) d.listed new.above) in
      let there : get name dir ≡ some bytes =
        get-insert name name bytes s.directory ∙ rw (beq_refl name) refl in
      reconstruct-tables filters laws dir ts (name ∷ [])
        (Filed-insert laws name bytes s.directory ts below d.filed)
      ∙ rw (laws.keys_torn name bytes dir there short, reconstruct) refl

  -- The process ends inside a flush, when the new table's file has fewer than eight bytes. If the
  -- directory held the files of some tables, the new name was above the others, and no bloom map
  -- file counts, then `initialize` of the next process returns the error of an unexpected end of
  -- file, and leaves the files as they were: the store does not start. The tables keep their
  -- interface.
  pub torn_table-fails :
      (s : Lsm Bloom) (bytes : Bytes) (ts : TableList)
      → OnDisk laws s.directory ts
      → IsNewest laws (table_name s.clock) s.directory
      → length bytes < 8
      → restore_bloom_map_from_file codec (reopened (torn_flush bytes s)) ≡ ok none
      → initialize filters tables logs codec (reopened (torn_flush bytes s))
        ≡ (err (io unexpected_eof), reopened (torn_flush bytes s))
  unfolding initialize restore_bloom_map reconstruct_bloom_map_from_sstables keep_bloom_map restart
      torn_flush
  torn_table-fails s bytes ts d new short none_counts =
      let next = reopened (torn_flush bytes s) in
      let rebuilt : reconstruct_bloom_map_from_sstables filters tables next
          ≡ (err (io unexpected_eof), next.directory) =
        rw (names_behind s bytes ts d new) (reconstruct-torn s bytes ts d new short) in
      let restored : restore_bloom_map filters tables codec next ≡ (err (io unexpected_eof), next) =
        rw (restore_bloom_map, none_counts, rebuilt) in
      rw restored refl
