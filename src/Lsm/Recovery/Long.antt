-- ===== src/Lsm/Recovery/Long.antt =====
-- `initialize` of store/lsm.rs behind a transaction whose record does not fit in the room of one read.
use kave.Base.{true, ◌<◌, none, List, [], ◌∷◌, ◌++◌, ◌≡◌, refl, ap}
use kave.Base.Words.{u64_mod}
use kave.CommitLog.{CommitLogLine, begin_tx, created}
use kave.CommitLog.Interface.{Logs, IsLogs, LogFits}
use kave.Error.{Result, ok, err, bincode_error, ▷_err}
use kave.External.{Codec}
use kave.Lsm.{Lsm, BloomFilter, BloomMap}
use kave.Lsm.Contract.{do_transact_lem}
use kave.Lsm.Invariant.{TableList, OnDisk}
use kave.Lsm.Recovery.{initialize, restore_bloom_map_from_file, restore_previous_txs, with_read_log}
use kave.Lsm.Recovery.Blooms.{restore_bloom_map-rebuilt, blooms_of}
use kave.Lsm.Recovery.Crash.{reopened, restart}
use kave.Lsm.Recovery.Logged.{IsLogged}
use kave.Lsm.Write.{do_transact, apply_transaction, log_begin, with_log}
use kave.SsTable.Interface.{Tables, IsTables}
use kave.Store.{Transaction}

module _ {Bloom : Type 0} (filters : BloomFilter Bloom) {tables : Tables} (laws : IsTables tables)
    {logs : Logs} (log_laws : IsLogs logs) (codec : Codec (BloomMap Bloom)) where
  -- A transaction's line is longer than the room of a read, and shorter than 2^64 bytes. If the
  -- directory held the files of some tables, and the memtable was what the log's unfinished
  -- transactions make, then `do_transact` returns `Ok`, but if the process ends then, `initialize`
  -- of the next one returns the bincode error: the store does not start. Every earlier log line
  -- fits the room of a read, the log's file fits the buffer, no bloom map file counts, and tables
  -- and log keep their interfaces.
  pub long_transaction-fails :
      (tx : Transaction) (s : Lsm Bloom) (ts : TableList) (ls : List CommitLogLine)
      → OnDisk laws s.directory ts
      → IsLogged log_laws s ls
      → log_laws.line_room < log_laws.line_size (begin_tx tx)
      → log_laws.line_size (begin_tx tx) < u64_mod
      → LogFits log_laws (do_transact logs tx true s).1.commit_log
      → restore_bloom_map_from_file codec (reopened (do_transact logs tx true s).1) ≡ ok none
      → ((do_transact logs tx true s).0 ≡ ok tt)
        × ((initialize filters tables logs codec (reopened (do_transact logs tx true s).1)).0
            ≡ err bincode_error)
  unfolding initialize apply_transaction log_begin with_log restart restore_previous_txs
      with_read_log
  long_transaction-fails tx s ts ls d l long fits whole stale =
      let one = do_transact_lem log_laws tx s ls l.held in
      let after = (do_transact logs tx true s).1 in
      let dir : after.directory ≡ s.directory = rw one refl in
      let held : created after.commit_log.file ≡ log_laws.image (ls ++ begin_tx tx ∷ []) =
        rw one (log_laws.begin_ok tx s.commit_log ls l.held).1 in
      let disk : OnDisk laws after.directory ts = rw dir d in
      let fresh = reopened after in
      let restored = restore_bloom_map-rebuilt filters laws codec fresh ts disk stale in
      let failed : (logs.get_unfinished_transactions fresh.commit_log).0 ≡ err bincode_error =
        log_laws.unfinished_long fresh.commit_log ls [] (begin_tx tx) held l.short long fits
          whole in
      (
        rw one refl,
        rw restored (
            ap (λ (r : Result (Unit {0}) × Lsm Bloom). r.0)
              (▷_err
                (with_read_log logs (record fresh { bloom_map = blooms_of filters ts })
                  (logs.get_unfinished_transactions fresh.commit_log))
                _ failed)),
      )
