-- ===== src/Lsm/Recovery/Crash.antt =====
-- `initialize` of store/lsm.rs, on the files that a crash left.
use mathlib.Core.Path.{subst}
use kave.Value.{Value}
use kave.Base.{length, ◌≤◌, Option, none, List, [], ◌∷◌, ◌++◌, ◌≡◌, refl, ◌∙◌, sym, ap}
use kave.Base.Bytes.{Bytes}
use kave.Base.Map.{Map, insert, IsSorted}
use kave.CommitLog.{written_at, CommitLogLine, created}
use kave.CommitLog.Ids.{end_lines, unfinished-end_lines}
use kave.CommitLog.Interface.{Logs, IsLogs, AllShort, LogFits}
use kave.CommitLog.Unfinished.{unfinished}
use kave.Error.{ok, ▷_ok}
use kave.External.{Codec}
use kave.Lsm.{Lsm, BloomFilter, BloomMap, new, table_name}
use kave.Lsm.Flush.{IsNewest, OnDisk-insert}
use kave.Lsm.Invariant.{TableList, found_in, NoFalseNegatives, Aligned, OnDisk, Sound, view_of}
use kave.Lsm.Recovery.{
  restore_bloom_map, restore_bloom_map_from_file, restore_previous_txs, with_read_log, initialize,
}
use kave.Lsm.Recovery.Blooms.{blooms_of, blooms_of-Aligned, restore_bloom_map-rebuilt}
use kave.Lsm.Recovery.Logged.{IsLogged}
use kave.Lsm.Recovery.Replay.{
  perform_txs, ids_of, replay_lem, perform_txs-IsSorted, replay_idempotent,
}
use kave.Lsm.Read.{data_of}
use kave.SsTable.{Directory}
use kave.SsTable.Interface.{Tables, IsTables}
use kave.Store.{Transaction}
use kave.Store.Contract.{View}

-- The process ends, and another opens these files.
unfoldable pub restart : {Bloom : Type 0} → Directory → Option Bytes → Lsm Bloom → Lsm Bloom
unfolding new
restart dir log s = new s.memtable_max_bytes dir log s.clock s.log_modified s.bloom_modified

-- The process ends, and another opens the same files.
abbrev pub reopened : {Bloom : Type 0} → Lsm Bloom → Lsm Bloom
reopened s = restart s.directory s.commit_log.file s

-- The transactions that a cut flush left unfinished, performed again over the table of all of them.
pub replayed_over_table :
    (done left : List Transaction) (ls : List CommitLogLine) (ts : TableList) (name : Bytes)
    (m : Map Value)
    → unfinished ls ≡ done ++ left
    → m ≡ perform_txs (unfinished ls) []
    → (k : Bytes)
    → view_of (perform_txs (unfinished (ls ++ end_lines done)) []) ((name, m) ∷ ts) k
      ≡ view_of m ts k
replayed_over_table done left ls ts name m split is k =
    let whole : m ≡ perform_txs (done ++ left) [] =
      is ∙ ap (λ (txs : List Transaction). perform_txs txs []) split in
    rw (unfinished-end_lines done left ls split, whole)
      (unfold view_of found_in in ap data_of (replay_idempotent k done left (found_in k ts)))

module _ {Bloom : Type 0} {filters : BloomFilter Bloom} (bloom_laws : NoFalseNegatives filters)
    {tables : Tables} (laws : IsTables tables) {logs : Logs} (log_laws : IsLogs logs)
    (codec : Codec (BloomMap Bloom)) where
  -- What `initialize` reaches from such a new store, with the bloom map that it restored.
  unfoldable pub started : Lsm Bloom → BloomMap Bloom → List CommitLogLine → Lsm Bloom
  started s bs ls = record s {
    bloom_map = bs;
    commit_log = (logs.get_unfinished_transactions s.commit_log).1;
    log_modified =
        written_at s.commit_log (logs.get_unfinished_transactions s.commit_log).1 s.log_modified
          s.clock;
    memtable = perform_txs (unfinished ls) s.memtable;
    tx_ids = s.tx_ids ++ ids_of (unfinished ls);
  }

  pub initialize-started :
      (s : Lsm Bloom) (bs : BloomMap Bloom) (ls : List CommitLogLine)
      → created s.commit_log.file ≡ log_laws.image ls
      → AllShort log_laws.line_size log_laws.line_room ls
      → LogFits log_laws s.commit_log
      → restore_bloom_map filters tables codec s ≡ (ok tt, record s { bloom_map = bs })
      → initialize filters tables logs codec s ≡ (ok tt, started s bs ls)
  unfolding initialize started
  initialize-started s bs ls h fit whole restored = rw restored (
      unfold restore_previous_txs with_read_log in
      ▷_ok
        (with_read_log logs (record s { bloom_map = bs })
          (logs.get_unfinished_transactions s.commit_log))
        _ (log_laws.unfinished_ok s.commit_log ls h fit whole).0
      ∙ replay_lem logs (unfinished ls) _)

  -- `initialize` succeeds on these files, in a sound state over these tables with this view.
  pub record Recovers (s : Lsm Bloom) (ts : TableList) (f : View) : Type 0 where
    pub starts : (initialize filters tables logs codec s).0 ≡ ok tt
    pub sound : Sound laws filters (initialize filters tables logs codec s).1 ts
    pub shown : (k : Bytes) → view_of (initialize filters tables logs codec s).1.memtable ts k ≡ f k

  pub started-Sound :
      (s : Lsm Bloom) (bs : BloomMap Bloom) (ts : TableList) (ls : List CommitLogLine)
      → OnDisk laws s.directory ts
      → Aligned filters bs ts
      → IsSorted s.memtable
      → Sound laws filters (started s bs ls) ts
  unfolding started
  started-Sound s bs ts ls d aligned sorted = record {
    disk = d;
    aligned = aligned;
    memtable_sorted = perform_txs-IsSorted (unfinished ls) s.memtable sorted;
  }

  -- The files hold these tables and these log lines, and no bloom map that counts.
  pub recovers :
      (s : Lsm Bloom) (dir : Directory) (log : Option Bytes) (ts : TableList)
      (ls : List CommitLogLine)
      → OnDisk laws dir ts
      → created log ≡ log_laws.image ls
      → AllShort log_laws.line_size log_laws.line_room ls
      → length (created log) ≤ log_laws.file_room
      → restore_bloom_map_from_file codec (restart dir log s) ≡ ok none
      → Recovers (restart dir log s) ts (view_of (perform_txs (unfinished ls) []) ts)
  unfolding restart
  recovers s dir log ts ls d h fit whole stale =
      let fresh = restart dir log s in
      let bs = blooms_of filters ts in
      let done =
        initialize-started fresh bs ls h fit whole
          (restore_bloom_map-rebuilt filters laws codec fresh ts d stale) in
      record {
        starts = rw done;
        sound = rw done (
            started-Sound fresh bs ts ls d (blooms_of-Aligned filters bloom_laws ts d.descends) tt);
        shown = λ k. rw done (unfold started in refl);
      }

  -- The process ends between two operations. If the state was sound, the memtable was what the
  -- log's unfinished transactions make, every log line fits the room of a read and the log's file
  -- the buffer, and no bloom map file counts, then `initialize` of the next process on the same
  -- files returns `Ok`, in a sound state over the same tables, in which every key has the value
  -- that it had. The bloom filter misses no key, and tables and log keep their interfaces.
  pub crash_recovery :
      (s : Lsm Bloom) (ts : TableList) (ls : List CommitLogLine)
      → Sound laws filters s ts
      → IsLogged log_laws s ls
      → LogFits log_laws s.commit_log
      → restore_bloom_map_from_file codec (restart s.directory s.commit_log.file s) ≡ ok none
      → Recovers (restart s.directory s.commit_log.file s) ts (view_of s.memtable ts)
  crash_recovery s ts ls h l whole stale =
      subst
        (λ (m : Map Value). Recovers (restart s.directory s.commit_log.file s) ts (view_of m ts))
        (sym l.memtable_is)
        (recovers s s.directory s.commit_log.file ts ls h.disk l.held l.short whole stale)

  -- The process ends inside a flush: the table's file is written, and the first of the unfinished
  -- transactions are ended in the log. If the state before was sound, the memtable was what the
  -- log's unfinished transactions make, the table's name is new and above the others, the table
  -- fits, every log line fits the room of a read and the log's file the buffer, and no bloom map
  -- file counts, then `initialize` of the next process returns `Ok`, in a sound state over the old
  -- tables and the new one, in which every key has the value that it had before the flush. The
  -- bloom filter misses no key, and tables and log keep their interfaces.
  pub crash_in_flush :
      (s : Lsm Bloom) (ts : TableList) (ls : List CommitLogLine) (done left : List Transaction)
      (log : Option Bytes)
      → Sound laws filters s ts
      → IsLogged log_laws s ls
      → IsNewest laws (table_name s.clock) s.directory
      → laws.file_size s.memtable ≤ laws.limit
      → unfinished ls ≡ done ++ left
      → created log ≡ log_laws.image (ls ++ end_lines done)
      → AllShort log_laws.line_size log_laws.line_room (ls ++ end_lines done)
      → length (created log) ≤ log_laws.file_room
      → restore_bloom_map_from_file codec
          (restart (insert (table_name s.clock) (laws.image s.memtable) s.directory) log s)
        ≡ ok none
      → Recovers
          (restart (insert (table_name s.clock) (laws.image s.memtable) s.directory) log s)
          ((table_name s.clock, s.memtable) ∷ ts)
          (view_of s.memtable ts)
  crash_in_flush s ts ls done left log h l new fits split held short whole stale =
      let name = table_name s.clock in
      let dir = insert name (laws.image s.memtable) s.directory in
      let disk =
        OnDisk-insert laws s.clock s.memtable s.directory ts h.disk new h.memtable_sorted fits in
      let r =
        recovers s dir log ((name, s.memtable) ∷ ts) (ls ++ end_lines done) disk held short whole
          stale in
      record {
        starts = r.starts;
        sound = r.sound;
        shown = λ k.
            r.shown k ∙ replayed_over_table done left ls ts name s.memtable split l.memtable_is k;
      }
