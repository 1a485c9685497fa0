-- ===== src/Server/Connection/Durable.antt =====
-- Clients of server/client.rs over the store of store/lsm.rs, and a crash between two connections.
use mathlib.Core.Path.{subst}
use native.Mathlib.Nat.{add-mul}
use kave.Base.{ap, ℕ, ◌+◌, ◌*◌, ◌≤◌, ◌<◌, true, List, [], ◌∷◌, ◌++◌, ◌≡◌, ◌≢◌, sym, arith, length}
use kave.Base.Bytes.{Bytes}
use kave.CommitLog.{CommitLogLine, begin_tx, created}
use kave.CommitLog.Interface.{Logs, IsLogs, LogFits}
use kave.CommitLog.Unfinished.{unfinished}
use kave.Error.{Result, ok}
use kave.External.{Codec, IsBincode}
use kave.Lsm.{Lsm, BloomFilter, BloomMap}
use kave.Lsm.Contract.{lsm_store, do_transact_lem}
use kave.Lsm.Invariant.{NoFalseNegatives}
use kave.Lsm.Lifetime.{NotAmong}
use kave.Lsm.Lifetime.Alive.{Alive, Alive-map, first-Alive, first-log}
use kave.Lsm.Lifetime.Each.{EachOf}
use kave.Lsm.Lifetime.Gets.{NoDelete, get-Alive}
use kave.Lsm.Lifetime.Runs.{transact-Alive}
use kave.Lsm.Lifetime.Whole.{first_start, nothing, restarts-Alive}
use kave.Lsm.Recovery.{initialize}
use kave.Lsm.Recovery.Crash.{reopened}
use kave.Lsm.Recovery.Crossed.{setting}
use kave.Lsm.Recovery.Replay.{ids_of}
use kave.Lsm.Write.{do_transact, apply_transaction, log_begin, with_log}
use kave.Proto.{ProtoOp, get, set, echo, sys_close, cancelled, ReadEvent}
use kave.Server.Connection.{accepted}
use kave.Server.Connection.Requests.{Serves, AllAllowed, serve_allowed}
use kave.Server.Connection.Rounds.{Handled}
use kave.Server.Connection.Spec.{answers, effects, reads_of, AreRequests}
use kave.SsTable.Interface.{Tables, IsTables}
use kave.Store.{Uuid, Operation, Transaction, with_random_id}
use kave.Store.Contract.{View, write}

-- The transaction deletes no key, which no request of the protocol does, and its id is none of those
-- that are drawn from the n-th on.
abbrev Requested : (ℕ → Uuid) → ℕ → Transaction → Type 0
Requested draw n tx = ((k : Bytes) → NoDelete k tx.operations) × ((m : ℕ) → n ≤ m → tx.id ≢ draw m)

EachOf-NotAmong :
    (draw : ℕ → Uuid) (n m : ℕ) (txs : List Transaction)
    → n ≤ m
    → EachOf (Requested draw n) txs
    → NotAmong (draw m) (ids_of txs)
unfolding ids_of
EachOf-NotAmong draw n m [] late h = tt
EachOf-NotAmong draw n m (tx ∷ txs) late h = (h.0.1 m late, EachOf-NotAmong draw n m txs late h.1)

-- Everything drawn is different.
abbrev pub AllDiffer : (ℕ → Uuid) → Type 0
AllDiffer draw = (i j : ℕ) → i < j → draw i ≢ draw j

-- The line of a SET request fits into the log.
abbrev pub LineFits : {logs : Logs} → IsLogs logs → (ℕ → Uuid) → ℕ → ProtoOp → Type 0
LineFits log_laws draw n (set k v) =
    log_laws.line_size (begin_tx (setting (draw n) k v)) ≤ log_laws.line_room
LineFits log_laws draw n (get k) = Unit
LineFits log_laws draw n (echo msg) = Unit
LineFits log_laws draw n sys_close = Unit
LineFits log_laws draw n cancelled = Unit

module _ {Bloom : Type 0} {filters : BloomFilter Bloom} (bloom_laws : NoFalseNegatives filters)
    {tables : Tables} (laws : IsTables tables) {logs : Logs} (log_laws : IsLogs logs)
    {codec : Codec (BloomMap Bloom)} (bincode : IsBincode codec) (draw : ℕ → Uuid) where
  -- The store is alive, its log deletes nothing, none of the ids in it is drawn again, and the log
  -- grew by no more than so many longest records.
  abbrev pub Serving : ℕ → ℕ → Lsm Bloom → View → Type 0
  Serving base n s f =
      Alive bloom_laws laws log_laws codec (Requested draw n) s f
      × (length (created s.commit_log.file) ≤ base + n * (8 + log_laws.line_room))

  kept-Alive :
      (n : ℕ) (s : Lsm Bloom) (f : View)
      → Alive bloom_laws laws log_laws codec (Requested draw n) s f
      → Alive bloom_laws laws log_laws codec (Requested draw (n + 1)) s f
  kept-Alive n s f h =
      Alive-map bloom_laws laws log_laws codec (Requested draw n) (Requested draw (n + 1))
        (λ tx has. (has.0, λ m late. has.1 m (omega arith))) h

  kept-Serving :
      (base n : ℕ) (s : Lsm Bloom) (f : View) → Serving base n s f → Serving base (n + 1) s f
  kept-Serving base n s f h =
      (kept-Alive n s f h.0, omega (arith, h.1, add-mul n 1 (8 + log_laws.line_room)))

  -- A transaction brings one record.
  set-grows :
      (tx : Transaction) (s : Lsm Bloom) (ls : List CommitLogLine)
      → created s.commit_log.file ≡ log_laws.image ls
      → length (created (do_transact logs tx true s).1.commit_log.file)
        ≡ length (created s.commit_log.file) + (8 + log_laws.line_size (begin_tx tx))
  unfolding apply_transaction log_begin with_log
  set-grows tx s ls h =
      rw (do_transact_lem log_laws tx s ls h) (log_laws.begin_grows tx s.commit_log)

  set-Serving :
      (k v : Bytes) (base n : ℕ) (s : Lsm Bloom) (f : View)
      → AllDiffer draw
      → LineFits log_laws draw n (set k v)
      → Serving base n s f
      → ((do_transact logs (setting (draw n) k v) true s).0 ≡ ok tt)
        × Serving base
            (n + 1)
            (do_transact logs (setting (draw n) k v) true s).1
            (write (Operation.set k v) f)
  set-Serving k v base n s f differ fits (h, bound) =
      let fresh : NotAmong (draw n) s.tx_ids =
        subst (NotAmong (draw n)) (sym h.logged.ids_are)
          (EachOf-NotAmong draw n n (unfinished h.lines) (omega arith) h.each) in
      let done =
        transact-Alive bloom_laws laws log_laws codec (Requested draw (n + 1))
          (setting (draw n) k v) s f (kept-Alive n s f h) (fresh, fits)
          ((λ j. tt), λ m late. differ n m (omega arith)) in
      (
        done.0,
        (
          done.1,
          omega (
            arith,
            bound,
            fits,
            set-grows (setting (draw n) k v) s h.lines h.logged.held,
            add-mul n 1 (8 + log_laws.line_room),
          ),
        ),
      )

  lsm-Serves :
      (base : ℕ)
      → AllDiffer draw
      → Serves (lsm_store filters tables logs) draw (LineFits log_laws draw) (Serving base)
  unfolding lsm_store with_random_id
  lsm-Serves base differ = record {
    get_ok = λ k n s f h.
        get-Alive bloom_laws laws log_laws bincode (Requested draw n) k s f (λ tx has. has.0 k) h.0;
    set_ok = λ k v n s f fits h. (set-Serving k v base n s f differ fits h).0;
    set_shows = λ k v n s f fits h. (set-Serving k v base n s f differ fits h).1;
    kept = kept-Serving base;
  }

  -- A connection on such a store.
  abbrev pub ServedLsm :
      (ℕ → Result (Unit {0})) → List ProtoOp → List ReadEvent → Lsm Bloom → View → Type 0
  ServedLsm peer ops rest s f =
      Handled (lsm_store filters tables logs) draw peer
        (Serving (length (created s.commit_log.file))) (length ops)
        (accepted s (reads_of ops ++ rest)) (answers ops f) (effects ops f) rest

  pub lsm-serves :
      (peer : ℕ → Result (Unit {0})) (ops : List ProtoOp) (rest : List ReadEvent) (s : Lsm Bloom)
      (f : View)
      → ((n : ℕ) → peer n ≡ ok tt)
      → AllDiffer draw
      → AreRequests ops
      → AllAllowed (LineFits log_laws draw) 0 ops
      → Alive bloom_laws laws log_laws codec (Requested draw 0) s f
      → ServedLsm peer ops rest s f
  lsm-serves peer ops rest s f listens differ h fits serving =
      serve_allowed (lsm_store filters tables logs) draw peer
        (lsm-Serves (length (created s.commit_log.file)) differ) listens ops rest f s h fits
        (serving, omega arith)

-- The process ends, and the next one starts on its files.
abbrev pub crashed :
    {Bloom : Type 0}
    → BloomFilter Bloom
    → Tables
    → Logs
    → Codec (BloomMap Bloom)
    → Lsm Bloom
    → Result (Unit {0}) × Lsm Bloom
crashed filters tables logs codec s = initialize filters tables logs codec (reopened s)

-- Ids, behind those of the first requests.
abbrev pub later_draws : (ℕ → Uuid) → ℕ → ℕ → Uuid
later_draws draw count n = draw (count + n)

module _ {Bloom : Type 0} {filters : BloomFilter Bloom} (bloom_laws : NoFalseNegatives filters)
    {tables : Tables} (laws : IsTables tables) {logs : Logs} (log_laws : IsLogs logs)
    {codec : Codec (BloomMap Bloom)} (bincode : IsBincode codec) (draw : ℕ → Uuid)
    (peer : ℕ → Result (Unit {0})) where
  -- A client on a new connection to a server whose `LSMStore` started in an empty data directory
  -- sends requests, each in a read of its own, whose arguments have no newline, whose keys are
  -- UTF-8 and whose lengths fit; then the process ends, another starts on the same files, and a
  -- client sends more such requests. Both clients take every reply. Then `handle` answers the first
  -- client as the values of the keys determine, `initialize` behind the crash returns `Ok`, and
  -- `handle` answers the second client as they determine behind the writes of the first; no reply
  -- and no write is lost. What is drawn as ids differs, every line fits the room of a read, and as
  -- many lines of that size as the first client has requests fit the buffer; the bloom filter
  -- misses no key, bincode keeps its laws, and tables and log keep their interfaces.
  pub sessions-durable :
      (memtable_max_bytes now : ℕ) (ops later : List ProtoOp) (rest rest' : List ReadEvent)
      → ((n : ℕ) → peer n ≡ ok tt)
      → AllDiffer draw
      → AreRequests ops
      → AllAllowed (LineFits log_laws draw) 0 ops
      → AreRequests later
      → AllAllowed (LineFits log_laws (later_draws draw (length ops))) 0 later
      → length ops * (8 + log_laws.line_room) ≤ log_laws.file_room
      → (first : ServedLsm bloom_laws laws log_laws bincode draw peer ops rest
          (first_start filters tables logs codec memtable_max_bytes now)
          nothing)
        × ((crashed filters tables logs codec first.last.store).0 ≡ ok tt)
        × ServedLsm bloom_laws laws log_laws bincode
            (later_draws draw (length ops))
            peer
            later
            rest'
            (crashed filters tables logs codec first.last.store).1
            (effects ops nothing)
  unfolding accepted
  sessions-durable memtable_max_bytes now ops later rest rest' listens differ h fits h' fits' few =
      let s = first_start filters tables logs codec memtable_max_bytes now in
      let started =
        (first-Alive bloom_laws laws log_laws codec (Requested draw 0) memtable_max_bytes now).1 in
      let first =
        lsm-serves bloom_laws laws log_laws bincode draw peer ops rest s nothing listens differ h
          fits started in
      let empty =
        first-log bloom_laws laws log_laws codec (Requested draw 0) memtable_max_bytes now in
      let counted : first.last.replies ≡ length ops = omega (arith, first.counted) in
      let count : first.last.replies * (8 + log_laws.line_room)
          ≡ length ops * (8 + log_laws.line_room) =
        ap (λ (n : ℕ). n * (8 + log_laws.line_room)) counted in
      let read_back : LogFits log_laws first.last.store.commit_log =
        omega (arith, first.shows.1, ap length empty, count, few) in
      let again =
        restarts-Alive bloom_laws laws log_laws bincode (Requested draw first.last.replies)
          first.last.store (effects ops nothing) first.shows.0 read_back in
      let over =
        Alive-map bloom_laws laws log_laws codec (Requested draw first.last.replies)
          (Requested (later_draws draw (length ops)) 0)
          (λ tx has. (has.0, λ m late. has.1 (length ops + m) (omega (arith, first.counted))))
          again.1 in
      (
        first,
        again.0,
        lsm-serves bloom_laws laws log_laws bincode (later_draws draw (length ops)) peer later rest'
            (crashed filters tables logs codec first.last.store).1 (effects ops nothing) listens
            (λ i j less. differ (length ops + i) (length ops + j) (omega arith)) h' fits' over,
      )
