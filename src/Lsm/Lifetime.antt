-- ===== src/Lsm/Lifetime.antt =====
-- The life of a store of store/lsm.rs: transactions, flushes, clean shutdowns, crashes and starts.
pub mod Files
pub mod Each
pub mod Alive
pub mod Runs
pub mod Stops
pub mod Cuts
pub mod Whole
pub mod Gets
use kave.Base.{◌≤◌, ℕ, suc, ◌+◌, ◌<◌, ◌⊎◌, true, false, List, [], ◌∷◌, ◌++◌, ◌≡◌, ◌≢◌, take}
use kave.Base.Words.{u64_mod}
use kave.CommitLog.{begin_tx}
use kave.CommitLog.Interface.{LogFits, Logs, IsLogs, AllShort}
use kave.Error.{Result, ok, ◌▷◌}
use kave.External.{Codec}
use kave.Lsm.{Lsm, BloomFilter, BloomMap, table_name}
use kave.Lsm.Flush.{ends, IsNewest}
use kave.Lsm.Recovery.{initialize, shutdown}
use kave.Lsm.Recovery.Crash.{reopened}
use kave.Lsm.Write.{end_all, with_log, do_transact, is_empty, add_table, write_sstable}
use kave.SsTable.Interface.{Tables, IsTables}
use kave.Store.{Uuid, Transaction}

-- What happens to a store. In `restarts` the process ends between two calls and the next one starts
-- on the same files; in `dies_in_flush n` it ends inside a flush, behind the write of the table and
-- of the lines that end the first `n + 1` transactions.
pub data Event : Type 0 where
  transacts : Transaction → Event
  flushes : Event
  waits : ℕ → Event
  shuts_down : Event
  restarts : Event
  dies_in_flush : ℕ → Event

-- The transactions that an event brings.
abbrev pub brought : Event → List Transaction
brought (transacts tx) = tx ∷ []
brought flushes = []
brought (waits n) = []
brought shuts_down = []
brought restarts = []
brought (dies_in_flush n) = []

abbrev pub all_brought : List Event → List Transaction
all_brought [] = []
all_brought (x ∷ xs) = brought x ++ all_brought xs

module _ {Bloom : Type 0} (filters : BloomFilter Bloom) (tables : Tables) (logs : Logs) where
  -- `write_sstable`, up to the line that ends the last of the first `n` transactions.
  unfoldable pub cut_flush : ℕ → Lsm Bloom → Lsm Bloom
  cut_flush n s =
      let path = table_name s.clock in
      let added =
        (add_table filters tables logs path s (tables.write path s.memtable s.directory)).1 in
      (with_log added (end_all logs (take n s.tx_ids) added.commit_log)).1

module _ {Bloom : Type 0} (filters : BloomFilter Bloom) (tables : Tables) (logs : Logs)
    (codec : Codec (BloomMap Bloom)) where
  unfoldable pub happen : Event → Lsm Bloom → Result (Unit {0}) × Lsm Bloom
  happen (transacts tx) s = do_transact logs tx true s
  happen flushes s = write_sstable filters tables logs s ▷ λ _ s'. (ok tt, s')
  happen (waits n) s = (ok tt, record s { clock = s.clock + n })
  happen shuts_down s = shutdown filters tables logs codec s
  happen restarts s = initialize filters tables logs codec (reopened s)
  happen (dies_in_flush n) s =
      initialize filters tables logs codec (reopened (cut_flush filters tables logs (suc n) s))

  -- One event behind the other; the first that does not return `Ok` ends it.
  unfoldable pub happen_all : List Event → Lsm Bloom → Result (Unit {0}) × Lsm Bloom
  unfolding happen
  happen_all [] s = (ok tt, s)
  happen_all (x ∷ xs) s = happen x s ▷ λ _ s'. happen_all xs s'

-- The id is none of these.
abbrev pub NotAmong : Uuid → List Uuid → Type 0
NotAmong id [] = Unit
NotAmong id (i ∷ ids) = (i ≢ id) × NotAmong id ids

module _ {tables : Tables} (laws : IsTables tables) {logs : Logs} (log_laws : IsLogs logs)
    {Bloom : Type 0} where
  -- What a flush of a memtable that is not empty needs: the table's name is new and above the
  -- others, the table and the lines of the log fit, and the bloom map's file is of a time before.
  pub record CanFlush (s : Lsm Bloom) : Type 0 where
    pub newest : IsNewest laws (table_name s.clock) s.directory
    pub fits : laws.file_size s.memtable ≤ laws.limit
    pub ends_short : AllShort log_laws.line_size log_laws.line_room (ends s.tx_ids)
    pub later : s.bloom_modified < s.clock

  -- When an event may happen: what the ids, the sizes and the clock have to be. A start
  -- reads the log, so its file is not longer than the buffer then.
  abbrev pub Can : Event → Lsm Bloom → Type 0
  Can (transacts tx) s =
      NotAmong tx.id s.tx_ids × (log_laws.line_size (begin_tx tx) ≤ log_laws.line_room)
  Can flushes s = (is_empty s.memtable ≡ true) ⊎ CanFlush s
  Can (waits n) s = Unit
  Can shuts_down s = (is_empty s.memtable ≡ true) ⊎ CanFlush s
  Can restarts s = LogFits log_laws s.commit_log
  Can (dies_in_flush n) s =
      (is_empty s.memtable ≡ false)
      × CanFlush s
      × LogFits log_laws (end_all logs (take (suc n) s.tx_ids) s.commit_log).1

  module _ (filters : BloomFilter Bloom) (codec : Codec (BloomMap Bloom)) where
    abbrev pub AllCan : List Event → Lsm Bloom → Type 0
    AllCan [] s = Unit
    AllCan (x ∷ xs) s = Can x s × AllCan xs (happen filters tables logs codec x s).1
