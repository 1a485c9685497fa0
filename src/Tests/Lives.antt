-- ===== src/Tests/Lives.antt =====
-- The theorems on a store's life, on a life with a crash inside a flush and a clean shutdown.
use kave.Base.{List, [], ◌∷◌, ◌≡◌, refl, arith, inr}
use kave.Base.Bytes.{Bytes, beq, blt}
use kave.Base.Decimal.{digits_onto, to_string}
use kave.Base.Map.{get, insert, keys}
use kave.Base.Words.{to_be_bytes, from_be_bytes}
use kave.CommitLog
use kave.CommitLog.Interface.{commit_logs, commit_logs-IsLogs}
use kave.Error.{ok}
use kave.Lsm.{
  Lsm, new, table_name, sort_asc, place_asc, after_last_dot, bloom_insert, bloom_remove, extension,
  filter_of, perform, perform_all,
}
use kave.Lsm.Lifetime.{
  Event, transacts, waits, shuts_down, restarts, dies_in_flush, AllCan, happen, happen_all,
  cut_flush,
}
use kave.Lsm.Contract.{lsm_store}
use kave.Lsm.Lifetime.Alive.{Alive}
use kave.Lsm.Lifetime.Each.{Any}
use kave.Lsm.Lifetime.Gets.{life-get}
use kave.Lsm.Lifetime.Whole.{first_start, nothing, life-Alive, life-agrees}
use kave.Lsm.Read.{get_sstables_asc, is_table, table_names}
use kave.Lsm.Recovery.{
  initialize, restore_bloom_map, restore_bloom_map_from_file, reconstruct_bloom_map_from_sstables,
  restore_previous_txs, keep_bloom_map, read_bloom_map, reconstruct, replay, shutdown,
  with_read_log, write_bloom_map,
}
use kave.Lsm.Recovery.Crash.{restart}
use kave.Lsm.Write.{
  do_transact, add_table, apply_transaction, end_all, finish_flush, is_empty, log_begin, with_log,
  write_sstable,
}
use kave.SsTable
use kave.SsTable.Interface.{sstables, sstables-IsTables}
use kave.Store.Agree.{transact_all, write_txs}
use kave.Store.Memory
use kave.Store.Memory.{memory_store}
use kave.Tests.Codecs.{
  codec, value_codec, value_to, value_from, index_codec, index_to, index_from, codec-IsBincode,
  encode, decode, escape, join, split, line_codec, line_from, line_to, operations_from,
  operations_to, line_codec-IsBincode, value_codec-IsBincode, index_codec-IsBincode,
}
use kave.Tests.Filters.{lengths, lengths-NoFalseNegatives, map_codec, map_codec-IsBincode}
use kave.Tests.Streams.{full_stream}
use kave.Tests.World.{tables, tables_laws, logs, log_laws, key_a, key_b, removal, change}

abbrev start : Lsm Bytes
start = first_start lengths tables logs map_codec 10 1000

abbrev key_c : Bytes
key_c = b'c' ∷ []

abbrev life : List Event
life = transacts change ∷ dies_in_flush 0 ∷ transacts removal ∷ waits 1 ∷ shuts_down ∷ restarts ∷ []

life-AllCan : AllCan tables_laws log_laws lengths map_codec life start
unfolding happen cut_flush do_transact add_table apply_transaction end_all finish_flush is_empty
    log_begin with_log write_sstable commit_logs CommitLog.begin_transaction
    CommitLog.get_unfinished_transactions CommitLog.read_all CommitLog.read_lines
    CommitLog.apply_line CommitLog.decode_from CommitLog.encode CommitLog.end_transaction
    CommitLog.get_read_handle CommitLog.insert CommitLog.new CommitLog.place CommitLog.remove
    CommitLog.sort_values CommitLog.transactions initialize restore_bloom_map
    restore_bloom_map_from_file reconstruct_bloom_map_from_sstables restore_previous_txs
    keep_bloom_map read_bloom_map reconstruct replay shutdown with_read_log write_bloom_map restart
    get_sstables_asc is_table table_names sort_asc place_asc new after_last_dot bloom_insert
    bloom_remove extension filter_of perform perform_all table_name get insert keys beq blt
    digits_onto to_string to_be_bytes line_codec codec decode encode escape join line_from line_to
    operations_from operations_to split commit_logs-IsLogs line_codec-IsBincode codec-IsBincode
    sstables-IsTables value_codec-IsBincode index_codec-IsBincode full_stream from_be_bytes sstables
    value_codec value_to value_from index_codec index_to index_from SsTable.contents
    SsTable.file_handle SsTable.shift SsTable.index_of SsTable.write_values SsTable.header
    SsTable.write_file SsTable.write SsTable.read_index SsTable.read_value SsTable.find_value
    SsTable.search SsTable.read_entries SsTable.scan SsTable.table_keys
life-AllCan = (
  (tt, omega arith),
  (
    (
      refl,
      record {
        newest = record { free = refl; above = tt };
        fits = omega arith;
        ends_short = (omega arith, tt);
        later = omega arith;
      },
      omega arith,
    ),
    (
      (tt, omega arith),
      (
        tt,
        (
          inr (record {
            newest = record { free = refl; above = (refl, tt) };
            fits = omega arith;
            ends_short = (omega arith, tt);
            later = omega arith;
          }),
          (omega arith, tt),
        ),
      ),
    ),
  ),
)

life-Alive_example :
    ((happen_all lengths tables logs map_codec life start).0 ≡ ok tt)
    × Alive lengths-NoFalseNegatives tables_laws log_laws map_codec Any
        (happen_all lengths tables logs map_codec life start).1
        (write_txs (change ∷ removal ∷ []) nothing)
life-Alive_example =
    life-Alive lengths-NoFalseNegatives tables_laws log_laws map_codec-IsBincode 10 1000 life
      life-AllCan

life-agrees_example :
    ((lsm_store lengths tables logs).scan key_a key_c
      (happen_all lengths tables logs map_codec life start).1).0
    ≡ (memory_store.scan key_a key_c
        (transact_all memory_store (change ∷ removal ∷ []) Memory.new)).0
unfolding blt
life-agrees_example =
    life-agrees lengths-NoFalseNegatives tables_laws log_laws map_codec-IsBincode 10 1000 life key_a
      key_c life-AllCan refl

life-get_example :
    ((lsm_store lengths tables logs).get key_b
      (happen_all lengths tables logs map_codec life start).1).0
    ≡ (memory_store.get key_b (transact_all memory_store (change ∷ removal ∷ []) Memory.new)).0
unfolding beq
life-get_example =
    life-get lengths-NoFalseNegatives tables_laws log_laws map_codec-IsBincode 10 1000 life key_b
      life-AllCan (tt, ((refl, tt), tt))
