-- ===== src/Lsm/Flush/Keeps.antt =====
-- `write_sstable` and the background task of store/lsm.rs: a flush that is done, and one that is not.
use mathlib.Core.Path.{subst}
use kave.Base.{◌≤◌, true, false, none, some, List, [], ◌∷◌, ◌++◌, ◌≡◌, refl}
use kave.Base.Bytes.{Bytes}
use kave.Base.Map.{get}
use kave.CommitLog.{CommitLogLine, created}
use kave.CommitLog.Interface.{Logs, IsLogs}
use kave.Error.{ok, err, panic, e, file_exists}
use kave.Lsm.{Lsm, BloomFilter, table_name, bloom_insert}
use kave.Lsm.Invariant.{TableList, found_in, NamesBelow, NoFalseNegatives, Sound, view_of}
use kave.Lsm.Write.{is_empty, should_flush_memtable, add_table, write_sstable, send_event, tick}
use kave.Lsm.Flush.{
  ends, end_all_lem, filter_of-Covers, bloom_remove-below, IsNewest, OnDisk-insert, flushed,
  write_sstable-flushed,
}
use kave.Lsm.Flush.Names.{AllBelow, AllBelow-NamesBelow}
use kave.SsTable.Interface.{Tables, IsTables}

-- A flush that wrote `name`: the memtable is the newest table, and the log has ended its transactions.
pub record Flushed {Bloom : Type 0} (filters : BloomFilter Bloom) {tables : Tables}
    (laws : IsTables tables) {logs : Logs} (log_laws : IsLogs logs) (s s' : Lsm Bloom)
    (name : Bytes) (ts : TableList) (ls : List CommitLogLine) : Type 0 where
  pub sound : Sound laws filters s' ((name, s.memtable) ∷ ts)
  pub emptied : s'.memtable ≡ []
  pub forgotten : s'.tx_ids ≡ []
  pub logged : created s'.commit_log.file ≡ log_laws.image (ls ++ ends s.tx_ids)
  pub same_view :
      (k : Bytes) → view_of s'.memtable ((name, s.memtable) ∷ ts) k ≡ view_of s.memtable ts k

module _ {Bloom : Type 0} {filters : BloomFilter Bloom} (bloom_laws : NoFalseNegatives filters)
    {tables : Tables} (laws : IsTables tables) {logs : Logs} (log_laws : IsLogs logs) where
  flushed-Sound :
      (s : Lsm Bloom) (ts : TableList)
      → Sound laws filters s ts
      → IsNewest laws (table_name s.clock) s.directory
      → laws.file_size s.memtable ≤ laws.limit
      → Sound laws filters
          (flushed bloom_laws laws log_laws (table_name s.clock) s)
          ((table_name s.clock, s.memtable) ∷ ts)
  unfolding flushed bloom_insert
  flushed-Sound s ts h new fits =
      let name = table_name s.clock in
      let below : NamesBelow name ts =
        AllBelow-NamesBelow name ts (subst (AllBelow name) h.disk.listed new.above) in
      record {
        disk =
            OnDisk-insert laws s.clock s.memtable s.directory ts h.disk new h.memtable_sorted fits;
        aligned = (
          refl,
          filter_of-Covers bloom_laws s.memtable filters.empty,
          rw (bloom_remove-below filters name s.bloom_map ts h.aligned below) h.aligned,
        );
        memtable_sorted = tt;
      }

  -- From a sound state with a memtable that is not empty, whose table's name is new and above the
  -- others, whose table fits, and whose log file holds some lines, `write_sstable` returns the
  -- name; the state after it is sound with the memtable as newest table, memtable and transaction
  -- ids are empty, the log has one more line that ends each transaction, and every key has the
  -- value that it had. The bloom filter misses no key, and tables and log keep their interfaces.
  pub write_sstable-Flushed :
      (s : Lsm Bloom) (ts : TableList) (ls : List CommitLogLine)
      → Sound laws filters s ts
      → is_empty s.memtable ≡ false
      → IsNewest laws (table_name s.clock) s.directory
      → laws.file_size s.memtable ≤ laws.limit
      → created s.commit_log.file ≡ log_laws.image ls
      → ((write_sstable filters tables logs s).0 ≡ ok (some (table_name s.clock)))
        × Flushed filters laws log_laws s
            (write_sstable filters tables logs s).1
            (table_name s.clock)
            ts
            ls
  write_sstable-Flushed s ts ls h full new fits log =
      rw (write_sstable-flushed bloom_laws laws log_laws s ts ls h full new fits log) (
        refl,
        record {
          sound = flushed-Sound s ts h new fits;
          emptied = unfold flushed in refl;
          forgotten = unfold flushed in refl;
          logged = unfold flushed in (end_all_lem log_laws s.tx_ids s.commit_log ls log).1;
          same_view = λ k. unfold flushed view_of found_in get in refl;
        },
      )

module _ {Bloom : Type 0} (filters : BloomFilter Bloom) {tables : Tables} (laws : IsTables tables)
    (logs : Logs) where
  -- With nothing in the memtable a flush does nothing.
  pub write_sstable-empty :
      (s : Lsm Bloom)
      → is_empty s.memtable ≡ true
      → write_sstable filters tables logs s ≡ (ok none, s)
  unfolding write_sstable
  write_sstable-empty s h = rw h

  -- If the memtable is not empty and the directory already has a file of this millisecond's name,
  -- `write_sstable` returns the error that the file exists and leaves the whole state as it was.
  -- The tables keep their interface.
  pub write_sstable-taken :
      (s : Lsm Bloom) (bytes : Bytes)
      → is_empty s.memtable ≡ false
      → get (table_name s.clock) s.directory ≡ some bytes
      → write_sstable filters tables logs s ≡ (err (e (file_exists (table_name s.clock))), s)
  unfolding write_sstable add_table
  write_sstable-taken s bytes full taken =
      rw (full, laws.write_taken (table_name s.clock) s.memtable s.directory bytes taken)

-- A round that flushes with no subscriber panics: the task ends, behind a flush that was done.
pub tick-panic :
    {Bloom : Type 0} (filters : BloomFilter Bloom) (tables : Tables) (logs : Logs)
    (s s' : Lsm Bloom) (name : Bytes)
    → s.is_shutdown ≡ false
    → should_flush_memtable s ≡ true
    → write_sstable filters tables logs s ≡ (ok (some name), s')
    → s'.receivers ≡ 0
    → tick filters tables logs s ≡ (panic, s')
unfolding tick send_event
tick-panic filters tables logs s s' name up full done alone = rw (full, done, up, alone)
