-- ===== src/Tests/Stores.antt =====
-- The theorems on the log-structured store, on the store of World.
use kave.Base.{length, ◌≤◌, Option, none, some, List, [], ◌∷◌, ◌++◌, ◌≡◌, refl, arith, true, false}
use kave.Base.Bytes.{Bytes, beq, blt}
use kave.Base.Decimal.{to_string}
use kave.Base.Map.{get, insert}
use kave.Base.Words.{to_be_bytes}
use kave.CommitLog.{created}
use kave.CommitLog.Ids.{end_lines}
use kave.CommitLog.Interface.{AllShort, LogFits, commit_logs-IsLogs}
use kave.CommitLog.Unfinished.{unfinished, mentions}
use kave.Error.{ok, err, e, file_exists}
use kave.Lsm.{Lsm, table_name}
use kave.Lsm.Contract.{LsmShows, do_transact-LsmShows, lsm_get-view, lsm_get-deleted}
use kave.Lsm.Flush.Keeps.{Flushed, write_sstable-Flushed, write_sstable-taken}
use kave.Lsm.Invariant.{found_in, view_of}
use kave.Lsm.Read.{lsm_get, lsm_scan, data_of}
use kave.Lsm.Recovery.{restore_bloom_map_from_file}
use kave.Lsm.Recovery.Crash.{restart, Recovers, crash_recovery, crash_in_flush}
use kave.Lsm.Scan.View.{lsm_scan-Scans}
use kave.Lsm.Write.{write_sstable, is_empty, do_transact}
use kave.SsTable.{Directory}
use kave.Store.Contract.{Scans, write_all}
use kave.Tests.Codecs.{codec-IsBincode, encode, line_codec-IsBincode}
use kave.Tests.Streams.{full_stream}
use kave.Tests.World.{
  key_lists, key_lists-NoFalseNegatives, tables, tables_laws, logs, log_laws, key_a, key_b, old_map,
  old_tables, removal, change, lines, no_codec, store, memtable-fits, store-Sound, store-IsLogged,
  table_200-IsNewest, store-LsmShows,
}
use kave.Value.{tombstone}

store-no_bloom_map :
    restore_bloom_map_from_file no_codec (restart store.directory store.commit_log.file store)
    ≡ ok none
unfolding restore_bloom_map_from_file restart get beq table_name to_string
store-no_bloom_map = refl

store-LogFits : LogFits log_laws store.commit_log
unfolding commit_logs-IsLogs line_codec-IsBincode codec-IsBincode encode full_stream to_be_bytes
store-LogFits = omega arith

crash_recovery_example :
    Recovers key_lists-NoFalseNegatives tables_laws log_laws no_codec
      (restart store.directory store.commit_log.file store)
      old_tables
      (view_of store.memtable old_tables)
crash_recovery_example =
    crash_recovery key_lists-NoFalseNegatives tables_laws log_laws no_codec store old_tables lines
      store-Sound store-IsLogged store-LogFits store-no_bloom_map

abbrev flushed_directory : Directory
flushed_directory = insert (table_name 200) (tables_laws.image store.memtable) store.directory

-- The crash came when one of the two transactions was ended.
abbrev cut_log : Option Bytes
cut_log = some (log_laws.image (lines ++ end_lines (removal ∷ [])))

cut_log-AllShort :
    AllShort log_laws.line_size log_laws.line_room (lines ++ end_lines (removal ∷ []))
unfolding commit_logs-IsLogs line_codec-IsBincode codec-IsBincode encode full_stream
cut_log-AllShort = (omega arith, (omega arith, (omega arith, tt)))

cut_log-fits : length (created cut_log) ≤ log_laws.file_room
unfolding commit_logs-IsLogs line_codec-IsBincode codec-IsBincode encode full_stream to_be_bytes
cut_log-fits = omega arith

flushed-no_bloom_map :
    restore_bloom_map_from_file no_codec (restart flushed_directory cut_log store) ≡ ok none
unfolding restore_bloom_map_from_file restart get insert beq blt table_name to_string
flushed-no_bloom_map = refl

lines-unfinished : unfinished lines ≡ (removal ∷ []) ++ change ∷ []
unfolding unfinished mentions
lines-unfinished = refl

crash_in_flush_example :
    Recovers key_lists-NoFalseNegatives tables_laws log_laws no_codec
      (restart flushed_directory cut_log store)
      ((table_name 200, store.memtable) ∷ old_tables)
      (view_of store.memtable old_tables)
crash_in_flush_example =
    crash_in_flush key_lists-NoFalseNegatives tables_laws log_laws no_codec store old_tables lines
      (removal ∷ []) (change ∷ []) cut_log store-Sound store-IsLogged table_200-IsNewest
      memtable-fits lines-unfinished refl cut_log-AllShort cut_log-fits flushed-no_bloom_map

store-full : is_empty store.memtable ≡ false
unfolding is_empty
store-full = refl

write_sstable-Flushed_example :
    ((write_sstable key_lists tables logs store).0 ≡ ok (some (table_name 200)))
    × Flushed key_lists tables_laws log_laws store
        (write_sstable key_lists tables logs store).1
        (table_name 200)
        old_tables
        lines
write_sstable-Flushed_example =
    write_sstable-Flushed key_lists-NoFalseNegatives tables_laws log_laws store old_tables lines
      store-Sound store-full table_200-IsNewest memtable-fits refl

abbrev early : Lsm (List Bytes)
early = record store { clock = 100 }

early-taken : get (table_name early.clock) early.directory ≡ some (tables_laws.image old_map)
unfolding get beq table_name to_string
early-taken = refl

write_sstable-taken_example :
    write_sstable key_lists tables logs early ≡ (err (e (file_exists (table_name 100))), early)
write_sstable-taken_example =
    write_sstable-taken key_lists tables_laws logs early (tables_laws.image old_map) store-full
      early-taken

do_transact-LsmShows_example :
    ((do_transact logs change true store).0 ≡ ok tt)
    × LsmShows key_lists tables_laws log_laws
        (do_transact logs change true store).1
        (write_all change.operations (view_of store.memtable old_tables))
do_transact-LsmShows_example =
    do_transact-LsmShows key_lists tables_laws log_laws change store
      (view_of store.memtable old_tables) store-LsmShows

lsm_scan-Scans_example :
    (vs : List Bytes) × (lsm_scan key_lists tables key_a (b'c' ∷ []) store ≡ (ok vs, store))
    × Scans (view_of store.memtable old_tables) key_a (b'c' ∷ []) vs
lsm_scan-Scans_example =
    lsm_scan-Scans key_lists tables_laws key_a (b'c' ∷ []) store old_tables store-Sound
      (unfold blt in refl)

b-not_deleted :
    get key_b store.memtable ≡ some tombstone → data_of (found_in key_b old_tables) ≡ none
unfolding get beq
b-not_deleted h = cc h

lsm_get-view_example :
    lsm_get key_lists tables key_b store ≡ (ok (view_of store.memtable old_tables key_b), store)
lsm_get-view_example =
    lsm_get-view key_lists tables_laws key_b store old_tables store-Sound b-not_deleted

a-deleted : get key_a store.memtable ≡ some tombstone
unfolding get beq
a-deleted = refl

a-in_table : data_of (found_in key_a old_tables) ≡ some (b'1' ∷ [])
unfolding data_of found_in get beq
a-in_table = refl

-- The deleted key still has its old value for `get`.
lsm_get-deleted_example :
    (lsm_get key_lists tables key_a store ≡ (ok (some (b'1' ∷ [])), store))
    × (view_of store.memtable old_tables key_a ≡ none)
lsm_get-deleted_example =
    lsm_get-deleted key_lists tables_laws key_a (b'1' ∷ []) store old_tables store-Sound a-deleted
      a-in_table

store-stale : restore_bloom_map_from_file no_codec store ≡ ok none
unfolding restore_bloom_map_from_file get beq table_name to_string
store-stale = refl
