-- ===== src/Lsm/Lifetime/Runs.antt =====
-- Transactions and flushes of store/lsm.rs keep the store alive.
use mathlib.Core.Path.{subst}
use kave.Base.{
  ℕ, ◌≤◌, ◌<◌, ◌⊎◌, true, false, none, some, List, [], ◌∷◌, ◌++◌, ◌≡◌, refl, ◌∙◌, sym, arith, inl,
  inr, Option, Bool-cases,
}
use kave.Base.Bytes.{Bytes}
use kave.Base.Map.{get, insert}
use kave.Base.Map.Laws.{get-insert}
use kave.CommitLog.{CommitLogLine, CommitLog, begin_tx, created}
use kave.CommitLog.Ids.{IsFresh, unfinished-fresh}
use kave.CommitLog.Interface.{Logs, IsLogs}
use kave.CommitLog.Lines.{written_at_between, Made}
use kave.CommitLog.Unfinished.{unfinished}
use kave.Error.{ok, ▷_ok}
use kave.External.{Codec}
use kave.Lsm.{Lsm, BloomFilter, BloomMap, bloom_path, table_name}
use kave.Lsm.Contract.{do_transact_lem, view-perform_all, perform_all-IsSorted}
use kave.Lsm.Flush.{written_at-end_all, ends, flushed, write_sstable-flushed}
use kave.Lsm.Flush.Keeps.{write_sstable-Flushed, write_sstable-empty}
use kave.Lsm.Invariant.{TableList, NoFalseNegatives}
use kave.Lsm.Lifetime.{transacts, NotAmong, CanFlush, Can}
use kave.Lsm.Lifetime.Alive.{BloomFile, absent, stale, current, BloomFile-later, Alive}
use kave.Lsm.Lifetime.Each.{EachOf, EachOf-append}
use kave.Lsm.Lifetime.Files.{bloom_path-table_name}
use kave.Lsm.Recovery.Logged.{
  full-ids, unfinished-ends, do_transact-IsLogged, write_sstable-IsLogged,
}
use kave.Lsm.Recovery.Replay.{ids_of}
use kave.Lsm.Write.{
  end_all, log_begin, apply_transaction, do_transact, with_log, is_empty, write_sstable,
}
use kave.SsTable.{Directory}
use kave.SsTable.Interface.{Tables, IsTables}
use kave.Store.{Uuid, Transaction}
use kave.Store.Contract.{View, write_all}

NotAmong-IsFresh : (id : Uuid) (txs : List Transaction) → NotAmong id (ids_of txs) → IsFresh id txs
unfolding ids_of
NotAmong-IsFresh id [] h = tt
NotAmong-IsFresh id (tx ∷ txs) h = (h.0, NotAmong-IsFresh id txs h.1)

-- With a new table's file, the bloom map's file is missing or older than the log.
pub BloomFile-table :
    {Bloom : Type 0} (filters : BloomFilter Bloom) (codec : Codec (BloomMap Bloom)) (millis : ℕ)
    (bytes : Bytes) {dir : Directory} {b l : ℕ} {ts : TableList} (us : TableList) (now : ℕ)
    → l ≤ now
    → b < now
    → BloomFile filters codec dir b l ts
    → BloomFile filters codec (insert (table_name millis) bytes dir) b now us
BloomFile-table filters codec millis bytes {dir} us now h later file = elim file [
  | absent n ↦ absent (same ∙ n)
  | stale buf there old ↦ stale buf (same ∙ there) (ground (arith, later))
  | current buf bs there read aligned ↦ stale buf (same ∙ there) (ground (arith, later))
]
  where
    same : get bloom_path (insert (table_name millis) bytes dir) ≡ get bloom_path dir
    same = get-insert bloom_path (table_name millis) bytes dir ∙ rw (bloom_path-table_name millis)

-- An end that is logged makes the log's file.
pub end_all-Made :
    {logs : Logs} (laws : IsLogs logs) (ids : List Uuid) (log : CommitLog) (ls : List CommitLogLine)
    → created log.file ≡ laws.image ls
    → Made log
    → Made (end_all logs ids log).1
unfolding end_all
end_all-Made laws [] log ls held h = h
end_all-Made {logs} laws (id ∷ ids) log ls held h =
    let one = laws.end_ok id log ls held in
    rw (▷_ok (logs.end_transaction id log) _ one.0)
      (end_all-Made laws ids (logs.end_transaction id log).1 _ one.1 (laws.end_made id log))

module _ {Bloom : Type 0} {filters : BloomFilter Bloom} (bloom_laws : NoFalseNegatives filters)
    {tables : Tables} (laws : IsTables tables) {logs : Logs} (log_laws : IsLogs logs)
    (codec : Codec (BloomMap Bloom)) (P : Transaction → Type 0) where
  pub transact-Alive :
      (tx : Transaction) (s : Lsm Bloom) (f : View)
      → Alive bloom_laws laws log_laws codec P s f
      → Can laws log_laws (transacts tx) s
      → P tx
      → ((do_transact logs tx true s).0 ≡ ok tt)
        × Alive bloom_laws laws log_laws codec P
            (do_transact logs tx true s).1
            (write_all tx.operations f)
  unfolding apply_transaction log_begin with_log
  transact-Alive tx s f h can has =
      let fresh =
        NotAmong-IsFresh tx.id (unfinished h.lines)
          (subst (NotAmong tx.id) h.logged.ids_are can.0) in
      let done = do_transact-IsLogged log_laws tx s h.lines h.logged fresh can.1 in
      let e = do_transact_lem log_laws tx s h.lines h.logged.held in
      let logged = rw e at done.1 in
      let time =
        written_at_between s.commit_log (logs.begin_transaction tx s.commit_log).1 s.log_modified
          s.clock h.files.on_time in
      rw e (
        refl,
        record {
          table_list = h.table_list;
          lines = h.lines ++ begin_tx tx ∷ [];
          files = record {
            disk = h.files.disk;
            held = logged.held;
            short = logged.short;
            made = log_laws.begin_made tx s.commit_log;
            bloom_file = BloomFile-later filters codec _ time.0 h.files.bloom_file;
            on_time = time.1;
          };
          sound = record {
            disk = h.sound.disk;
            aligned = h.sound.aligned;
            memtable_sorted = perform_all-IsSorted tx.operations s.memtable h.sound.memtable_sorted;
          };
          logged = logged;
          shown = view-perform_all tx.operations s.memtable h.table_list f h.shown;
          each =
              subst (EachOf P) (sym (unfinished-fresh tx h.lines fresh))
                (EachOf-append P (unfinished h.lines) (tx ∷ []) h.each (has, tt));
        },
      )

  flush-Alive :
      (s : Lsm Bloom) (f : View)
      → Alive bloom_laws laws log_laws codec P s f
      → is_empty s.memtable ≡ false
      → CanFlush laws log_laws s
      → ((write_sstable filters tables logs s).0 ≡ ok (some (table_name s.clock)))
        × Alive bloom_laws laws log_laws codec P (write_sstable filters tables logs s).1 f
  unfolding flushed
  flush-Alive s f h full can =
      let ts = h.table_list in
      let (answer, done) =
        write_sstable-Flushed bloom_laws laws log_laws s ts h.lines h.sound full can.newest can.fits
          h.logged.held in
      let logged =
        write_sstable-IsLogged bloom_laws laws log_laws s ts h.lines h.sound full can.newest
          can.fits h.logged can.ends_short in
      let e =
        write_sstable-flushed bloom_laws laws log_laws s ts h.lines h.sound full can.newest can.fits
          h.logged.held in
      let time =
        written_at-end_all log_laws s.tx_ids s.commit_log h.lines s.log_modified s.clock
          h.logged.held (full-ids log_laws s h.lines h.logged full) in
      (
        answer,
        record {
          table_list = (table_name s.clock, s.memtable) ∷ ts;
          lines = h.lines ++ ends s.tx_ids;
          files = record {
            disk = done.sound.disk;
            held = logged.held;
            short = logged.short;
            made =
                rw e
                  (end_all-Made log_laws s.tx_ids s.commit_log h.lines h.logged.held h.files.made);
            bloom_file =
                rw (e, time)
                  (BloomFile-table filters codec s.clock (laws.image s.memtable)
                    ((table_name s.clock, s.memtable) ∷ ts) s.clock h.files.on_time can.later
                    h.files.bloom_file);
            on_time = rw (e, time) (omega arith);
          };
          sound = done.sound;
          logged = logged;
          shown = λ k. done.same_view k ∙ h.shown k;
          each = rw (unfinished-ends log_laws s h.lines h.logged) tt;
        },
      )

  -- A flush, if there is something to flush.
  pub write_sstable-Alive :
      (s : Lsm Bloom) (f : View)
      → Alive bloom_laws laws log_laws codec P s f
      → (is_empty s.memtable ≡ true) ⊎ CanFlush laws log_laws s
      → (named : Option Bytes) × ((write_sstable filters tables logs s).0 ≡ ok named)
        × Alive bloom_laws laws log_laws codec P (write_sstable filters tables logs s).1 f
  write_sstable-Alive s f h can = elim (Bool-cases (is_empty s.memtable)) [
    | inl empty ↦ rw (write_sstable-empty filters laws logs s empty) (none, refl, h)
    | inr full ↦ elim can [
      | inl empty ↦ cc (empty, full)
      | inr ready ↦
          let (answer, alive) = flush-Alive s f h full ready in
          (some (table_name s.clock), answer, alive)
    ]
  ]
