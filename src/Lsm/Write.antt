-- ===== src/Lsm/Write.antt =====
-- `do_transact`, `write_sstable`, `should_flush_memtable` and the round of the background task.
use kave.Base.{
  ℕ, Bool, true, false, not, ◌&&◌, Option, none, some, List, [], ◌∷◌, ◌++◌, leb, ◌==◌,
  if◌then◌else◌,
}
use kave.Base.Bytes.{Bytes}
use kave.Base.Map.{Map, keys}
use kave.CommitLog.{CommitLog, written_at}
use kave.CommitLog.Interface.{Logs}
use kave.Error.{Result, ok, err, panic, pending, ◌▷◌}
use kave.Lsm.{Lsm, BloomFilter, table_name, perform_all, bloom_insert, filter_of}
use kave.SsTable.{Directory}
use kave.SsTable.Interface.{Tables}
use kave.Store.{Uuid, Transaction}
use kave.Value.{Value}

-- `mem::size_of_val(&data.memtable)` is the size of the `BTreeMap` structure itself, three words,
-- whatever the map holds.
abbrev pub btree_map_size : ℕ
btree_map_size = 24

unfoldable pub is_empty : Map Value → Bool
is_empty [] = true
is_empty (_ ∷ _) = false

unfoldable pub should_flush_memtable : {Bloom : Type 0} → Lsm Bloom → Bool
unfolding is_empty
should_flush_memtable s = not (is_empty s.memtable) && leb s.memtable_max_bytes btree_map_size

module _ (logs : Logs) where
  -- The loop of `write_sstable` over the ids.
  unfoldable pub end_all : List Uuid → CommitLog → Result (Unit {0}) × CommitLog
  end_all [] log = (ok tt, log)
  end_all (id ∷ ids) log = logs.end_transaction id log ▷ λ _ log'. end_all ids log'

-- The store, with the commit log that a write left.
unfoldable pub with_log :
    {Bloom A : Type 0} → Lsm Bloom → Result A × CommitLog → Result A × Lsm Bloom
with_log s (done, log) = (
  done,
  record s { commit_log = log; log_modified = written_at s.commit_log log s.log_modified s.clock },
)

module _ {Bloom : Type 0} (logs : Logs) where
  -- `begin_transaction`, under the lock of the commit log.
  unfoldable pub log_begin : Transaction → Lsm Bloom → Result (Unit {0}) × Lsm Bloom
  unfolding with_log
  log_begin tx s = with_log s (logs.begin_transaction tx s.commit_log)

  -- The part of `do_transact` under the lock of the data.
  unfoldable pub apply_transaction : Transaction → Lsm Bloom → Lsm Bloom
  apply_transaction tx s = record s {
    tx_ids = s.tx_ids ++ tx.id ∷ [];
    memtable = perform_all tx.operations s.memtable;
  }

  unfoldable pub do_transact : Transaction → Bool → Lsm Bloom → Result (Unit {0}) × Lsm Bloom
  unfolding log_begin apply_transaction
  do_transact tx false s = (ok tt, apply_transaction tx s)
  do_transact tx true s = log_begin tx s ▷ λ _ s'. (ok tt, apply_transaction tx s')

  -- The end of `write_sstable`, behind the write of the file: the memtable is emptied before the
  -- transactions are ended, and the ids are forgotten behind the last of them.
  unfoldable pub finish_flush : Bytes → Lsm Bloom → Result (Option Bytes) × Lsm Bloom
  unfolding with_log
  finish_flush path s =
      with_log (record s { memtable = [] }) (end_all logs s.tx_ids s.commit_log) ▷ λ _ ended.
      (ok (some path), record ended { tx_ids = [] })

module _ {Bloom : Type 0} (filters : BloomFilter Bloom) (tables : Tables) (logs : Logs) where
  -- The file that was written goes into the bloom map.
  unfoldable pub add_table :
      Bytes → Lsm Bloom → Result (Unit {0}) × Directory → Result (Unit {0}) × Lsm Bloom
  add_table path s (ok _, dir) =
      let bloom = filter_of filters (keys s.memtable) filters.empty in
      (ok tt, record s { directory = dir; bloom_map = bloom_insert path bloom s.bloom_map })
  add_table path s (err x, dir) = (err x, record s { directory = dir })
  add_table path s (panic, dir) = (panic, record s { directory = dir })
  add_table path s (pending, dir) = (pending, record s { directory = dir })

  unfoldable pub write_sstable : Lsm Bloom → Result (Option Bytes) × Lsm Bloom
  write_sstable s =
      let path = table_name s.clock in
      if is_empty s.memtable
      then (ok none, s)
      else add_table path s (tables.write path s.memtable s.directory) ▷ λ _ s'.
          finish_flush logs path s'

  -- `event_sender.send(…).expect(…)`: a broadcast with no receiver is an error, so this panics.
  unfoldable pub send_event : Bytes → Lsm Bloom → Result Bool × Lsm Bloom
  send_event path s =
      if s.receivers == 0
      then (panic, s)
      else (ok true, record s { events = s.events ++ path ∷ [] })

  -- What a round makes of the flush: `expect` turns an error into a panic of the task.
  unfoldable pub after_flush : Result (Option Bytes) × Lsm Bloom → Result Bool × Lsm Bloom
  unfolding send_event
  after_flush (ok none, s) = (ok true, s)
  after_flush (ok (some path), s) = send_event path s
  after_flush (err x, s) = (panic, s)
  after_flush (panic, s) = (panic, s)
  after_flush (pending, s) = (pending, s)

  -- A round of the background task: `false` ends the loop.
  unfoldable pub tick : Lsm Bloom → Result Bool × Lsm Bloom
  unfolding after_flush
  tick s =
      if s.is_shutdown
      then (ok false, s)
      else if should_flush_memtable s
      then after_flush (write_sstable s)
      else (ok true, s)
