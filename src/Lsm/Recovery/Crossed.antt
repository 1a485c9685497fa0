-- ===== src/Lsm/Recovery/Crossed.antt =====
-- Two calls of `do_transact` in store/lsm.rs at once: each takes the lock of the log, then that of the
-- data, and between the two the other call may run.
use kave.Base.{◌≤◌, none, some, List, [], ◌∷◌, ◌++◌, ◌≡◌, ◌≢◌, refl, ◌∙◌, ap}
use kave.Base.Bytes.{Bytes, beq_refl}
use kave.Base.Map.{Map, get, insert}
use kave.Base.Map.Laws.{get-insert}
use kave.CommitLog.{CommitLogLine, begin_tx, created}
use kave.CommitLog.Ids.{IsFresh, unfinished-fresh}
use kave.CommitLog.Interface.{LogFits, Logs, IsLogs, AllShort}
use kave.CommitLog.Unfinished.{unfinished}
use kave.Error.{ok}
use kave.External.{Codec}
use kave.Lsm.{Lsm, BloomFilter, BloomMap, perform, perform_all}
use kave.Lsm.Invariant.{TableList, NoFalseNegatives, Sound, view_of}
use kave.Lsm.Read.{data_of}
use kave.Lsm.Recovery.{restore_bloom_map_from_file}
use kave.Lsm.Recovery.Crash.{Recovers, recovers, reopened}
use kave.Lsm.Recovery.Logged.{IsLogged, AllShort-append}
use kave.Lsm.Recovery.Replay.{perform_txs, perform_txs-append}
use kave.Lsm.Write.{log_begin, apply_transaction, with_log}
use kave.SsTable.Interface.{Tables, IsTables}
use kave.Store.{Uuid, set, Transaction}
use kave.Store.Contract.{View}
use kave.Value.{Value, present}

-- A transaction that sets one key.
abbrev pub setting : Uuid → Bytes → Bytes → Transaction
setting id k v = record { id = id; operations = set k v ∷ [] }

-- The first call logs, the second logs, the second writes, the first writes.
unfoldable pub crossed : {Bloom : Type 0} → Logs → Transaction → Transaction → Lsm Bloom → Lsm Bloom
unfolding log_begin apply_transaction
crossed logs first second s =
    let logged = (log_begin logs second (log_begin logs first s).1).1 in
    apply_transaction logs first (apply_transaction logs second logged)

IsFresh-append :
    (id : Uuid) (txs : List Transaction) (tx : Transaction)
    → IsFresh id txs
    → tx.id ≢ id
    → IsFresh id (txs ++ tx ∷ [])
IsFresh-append id [] tx f other = (other, tt)
IsFresh-append id (t ∷ txs) tx f other = (f.0, IsFresh-append id txs tx f.1 other)

-- What was set last.
view_of-set :
    (k v : Bytes) (m : Map Value) (ts : TableList) → view_of (perform (set k v) m) ts k ≡ some v
unfolding view_of perform
view_of-set k v m ts =
    let found : get k (insert k (present v) m) ≡ some (present v) =
      get-insert k k (present v) m ∙ rw (beq_refl k) refl in
    rw found (unfold data_of in refl)

module _ {Bloom : Type 0} {filters : BloomFilter Bloom} (bloom_laws : NoFalseNegatives filters)
    {tables : Tables} (laws : IsTables tables) {logs : Logs} (log_laws : IsLogs logs)
    (codec : Codec (BloomMap Bloom)) where
  -- The two lines of the log.
  abbrev both : Transaction → Transaction → List CommitLogLine → List CommitLogLine
  both first second ls = (ls ++ begin_tx first ∷ []) ++ begin_tx second ∷ []

  unfinished-both :
      (first second : Transaction) (ls : List CommitLogLine)
      → IsFresh first.id (unfinished ls)
      → IsFresh second.id (unfinished ls)
      → first.id ≢ second.id
      → unfinished (both first second ls) ≡ (unfinished ls ++ first ∷ []) ++ second ∷ []
  unfinished-both first second ls f g other =
      let one = unfinished-fresh first ls f in
      unfinished-fresh second (ls ++ begin_tx first ∷ [])
        (rw one (IsFresh-append second.id (unfinished ls) first g other))
      ∙ ap (λ (txs : List Transaction). txs ++ second ∷ []) one

  -- Two calls of `do_transact` that set the same key run at once: the first logs, the second logs,
  -- the second writes, the first writes. If the state was sound, the memtable was what the log's
  -- unfinished transactions make, the ids are new and different, the log lines fit the room of a
  -- read and the log's file the buffer, and no bloom map file counts, then the key has the first
  -- call's value, but after `initialize` of the next process, which returns `Ok` in a sound state,
  -- it has the second's. The bloom filter misses no key, and tables and log keep their interfaces.
  pub crossed-Recovers :
      (k v w : Bytes) (i j : Uuid) (s : Lsm Bloom) (ts : TableList) (ls : List CommitLogLine)
      → Sound laws filters s ts
      → IsLogged log_laws s ls
      → IsFresh i (unfinished ls)
      → IsFresh j (unfinished ls)
      → i ≢ j
      → log_laws.line_size (begin_tx (setting i k v)) ≤ log_laws.line_room
      → log_laws.line_size (begin_tx (setting j k w)) ≤ log_laws.line_room
      → LogFits log_laws (crossed logs (setting i k v) (setting j k w) s).commit_log
      → restore_bloom_map_from_file codec
          (reopened (crossed logs (setting i k v) (setting j k w) s))
        ≡ ok none
      → (view_of (crossed logs (setting i k v) (setting j k w) s).memtable ts k ≡ some v)
        × ((f : View) × Recovers bloom_laws laws log_laws codec
              (reopened (crossed logs (setting i k v) (setting j k w) s))
              ts
              f
            × (f k ≡ some w))
  crossed-Recovers k v w i j s ts ls h l fi fj other short_v short_w whole stale =
      let first = setting i k v in
      let second = setting j k w in
      let left = crossed logs first second s in
      let begun = log_laws.begin_ok first s.commit_log ls l.held in
      let held : created left.commit_log.file ≡ log_laws.image (both first second ls) =
        unfold crossed log_begin apply_transaction with_log in
        (log_laws.begin_ok second _ (ls ++ begin_tx first ∷ []) begun.1).1 in
      let sizes = log_laws.line_size in
      let short : AllShort sizes log_laws.line_room (both first second ls) =
        AllShort-append sizes log_laws.line_room (ls ++ begin_tx first ∷ []) (begin_tx second ∷ [])
          (AllShort-append sizes log_laws.line_room ls (begin_tx first ∷ []) l.short (short_v, tt))
          (short_w, tt) in
      let m = perform_txs (unfinished ls ++ first ∷ []) [] in
      let made : perform_txs (unfinished (both first second ls)) [] ≡ perform (set k w) m =
        ap (λ (txs : List Transaction). perform_txs txs [])
          (unfinished-both first second ls fi fj other)
        ∙ perform_txs-append (unfinished ls ++ first ∷ []) (second ∷ []) []
        ∙ (unfold perform_txs perform_all in refl) in
      (
        unfold crossed apply_transaction log_begin with_log perform_all in
            view_of-set k v (perform (set k w) s.memtable) ts,
        (
          view_of (perform_txs (unfinished (both first second ls)) []) ts,
          recovers bloom_laws laws log_laws codec left left.directory left.commit_log.file ts
              (both first second ls) (unfold crossed log_begin apply_transaction with_log in h.disk)
              held short whole stale,
          ap (λ (x : Map Value). view_of x ts k) made ∙ view_of-set k w m ts,
        ),
      )
