-- ===== src/Lsm/Lifetime/Whole.antt =====
-- Every life of a store of store/lsm.rs, from its first start on.
use kave.Base.{ℕ, ◌+◌, none, List, [], ◌∷◌, ◌++◌, ◌≡◌, false, refl, ◌∙◌, sym, ap, arith}
use kave.Base.Bytes.{Bytes, blt}
use kave.CommitLog.Interface.{LogFits, Logs, IsLogs}
use kave.Error.{ok, ▷_ok}
use kave.External.{Codec, IsBincode}
use kave.Lsm.{Lsm, BloomFilter, BloomMap, new}
use kave.Lsm.Contract.{lsm_store, LsmShows, lsm-ScansView}
use kave.Lsm.Invariant.{NoFalseNegatives, view_of}
use kave.Lsm.Lifetime.{
  Event, transacts, flushes, waits, shuts_down, restarts, dies_in_flush, brought, all_brought,
  happen, happen_all, Can, AllCan,
}
use kave.Lsm.Lifetime.Alive.{Alive, Alive-view, starts-Alive, first-Alive}
use kave.Lsm.Lifetime.Cuts.{cut_flush-Alive}
use kave.Lsm.Lifetime.Each.{EachOf, EachOf-split, Any, EachOf-Any}
use kave.Lsm.Lifetime.Runs.{transact-Alive, write_sstable-Alive}
use kave.Lsm.Lifetime.Stops.{later-Alive, shutdown-Alive}
use kave.Lsm.Recovery.{initialize}
use kave.Lsm.Recovery.Crash.{reopened}
use kave.Lsm.Write.{write_sstable}
use kave.SsTable.Interface.{Tables, IsTables}
use kave.Store.{Transaction}
use kave.Store.Agree.{transact_all, write_txs, transact_all-Shows, scans-agree}
use kave.Store.Contract.{View, write_all}
use kave.Store.Memory
use kave.Store.Memory.{MemoryStore, memory_store}
use kave.Store.Memory.Laws.{new-MemoryShows, memory-IsStore}

write_txs-append :
    (xs ys : List Transaction) (f : View) → write_txs (xs ++ ys) f ≡ write_txs ys (write_txs xs f)
write_txs-append [] ys f = refl
write_txs-append (tx ∷ xs) ys f = write_txs-append xs ys (write_all tx.operations f)

-- No key has a value.
abbrev pub nothing : View
nothing k = none

module _ {Bloom : Type 0} {filters : BloomFilter Bloom} (bloom_laws : NoFalseNegatives filters)
    {tables : Tables} (laws : IsTables tables) {logs : Logs} (log_laws : IsLogs logs)
    {codec : Codec (BloomMap Bloom)} (bincode : IsBincode codec) (P : Transaction → Type 0) where
  pub restarts-Alive :
      (s : Lsm Bloom) (f : View)
      → Alive bloom_laws laws log_laws codec P s f
      → LogFits log_laws s.commit_log
      → ((initialize filters tables logs codec (reopened s)).0 ≡ ok tt)
        × Alive bloom_laws laws log_laws codec P
            (initialize filters tables logs codec (reopened s)).1
            f
  restarts-Alive s f h whole =
      let begun =
        starts-Alive bloom_laws laws log_laws codec P s h.table_list h.lines h.files whole h.each in
      (
        begun.0,
        Alive-view bloom_laws laws log_laws codec P
            (λ k. ap (λ m. view_of m h.table_list k) (sym h.logged.memtable_is) ∙ h.shown k)
            begun.1,
      )

  -- One event.
  pub happen-Alive :
      (x : Event) (s : Lsm Bloom) (f : View)
      → Alive bloom_laws laws log_laws codec P s f
      → Can laws log_laws x s
      → EachOf P (brought x)
      → ((happen filters tables logs codec x s).0 ≡ ok tt)
        × Alive bloom_laws laws log_laws codec P
            (happen filters tables logs codec x s).1
            (write_txs (brought x) f)
  unfolding happen
  happen-Alive (transacts tx) s f h can has =
      transact-Alive bloom_laws laws log_laws codec P tx s f h can has.0
  happen-Alive flushes s f h can has =
      let (named, answer, alive) = write_sstable-Alive bloom_laws laws log_laws codec P s f h can in
      rw (▷_ok (write_sstable filters tables logs s) _ answer) (refl, alive)
  happen-Alive (waits n) s f h can has = (
    refl,
    later-Alive bloom_laws laws log_laws bincode P s.is_shutdown (s.clock + n) s f (omega arith) h,
  )
  happen-Alive shuts_down s f h can has =
      shutdown-Alive bloom_laws laws log_laws bincode P s f h can
  happen-Alive restarts s f h can has = restarts-Alive s f h can
  happen-Alive (dies_in_flush n) s f h can has =
      cut_flush-Alive bloom_laws laws log_laws codec P _ s f h can.0 (omega arith) can.1 can.2

  pub happen_all-Alive :
      (xs : List Event) (s : Lsm Bloom) (f : View)
      → Alive bloom_laws laws log_laws codec P s f
      → AllCan laws log_laws filters codec xs s
      → EachOf P (all_brought xs)
      → ((happen_all filters tables logs codec xs s).0 ≡ ok tt)
        × Alive bloom_laws laws log_laws codec P
            (happen_all filters tables logs codec xs s).1
            (write_txs (all_brought xs) f)
  unfolding happen_all
  happen_all-Alive [] s f h can has = (refl, h)
  happen_all-Alive (x ∷ xs) s f h can has =
      let (now, then) = EachOf-split P (brought x) (all_brought xs) has in
      let one = happen-Alive x s f h can.0 now in
      rw
        (
          ▷_ok (happen filters tables logs codec x s) _ one.0,
          write_txs-append (brought x) (all_brought xs) f,
        )
        (happen_all-Alive xs (happen filters tables logs codec x s).1 (write_txs (brought x) f)
          one.1 can.1 then)

-- A new store on an empty data directory, behind `initialize`.
abbrev pub first_start :
    {Bloom : Type 0}
    → BloomFilter Bloom
    → Tables
    → Logs
    → Codec (BloomMap Bloom)
    → ℕ
    → ℕ
    → Lsm Bloom
first_start filters tables logs codec memtable_max_bytes now =
    (initialize filters tables logs codec (new memtable_max_bytes [] none now 0 0)).1

module _ {Bloom : Type 0} {filters : BloomFilter Bloom} (bloom_laws : NoFalseNegatives filters)
    {tables : Tables} (laws : IsTables tables) {logs : Logs} (log_laws : IsLogs logs)
    {codec : Codec (BloomMap Bloom)} (bincode : IsBincode codec) where
  pub life_with :
      (P : Transaction → Type 0) (memtable_max_bytes now : ℕ) (xs : List Event)
      → AllCan laws log_laws filters codec xs
          (first_start filters tables logs codec memtable_max_bytes now)
      → EachOf P (all_brought xs)
      → ((happen_all filters tables logs codec xs
            (first_start filters tables logs codec memtable_max_bytes now)).0
          ≡ ok tt)
        × Alive bloom_laws laws log_laws codec P
            (happen_all filters tables logs codec xs
              (first_start filters tables logs codec memtable_max_bytes now)).1
            (write_txs (all_brought xs) nothing)
  life_with P memtable_max_bytes now xs can has =
      happen_all-Alive bloom_laws laws log_laws bincode P xs
        (first_start filters tables logs codec memtable_max_bytes now) nothing
        (first-Alive bloom_laws laws log_laws codec P memtable_max_bytes now).1 can has

  -- A store starts in an empty data directory, and then come events in any order: transactions,
  -- flushes, pauses, clean shutdowns, crashes between two calls, and crashes inside a flush behind
  -- the write of the table and of some of the lines that end transactions; behind a crash
  -- `initialize` runs on the files that are left. A new id is none of the unfinished ones, log
  -- lines fit the room of a read, and tables, and the log at every start, the buffer, and a flush
  -- that has something to write finds a name that is new and above the others and a bloom map file
  -- older than the clock. Then every event returns `Ok`, the state is sound, memtable and ids are
  -- what the log's unfinished transactions make, the bloom map's file does not mislead the next
  -- start, and the values of the keys are what all transactions wrote, in their order. The bloom
  -- filter misses no key, bincode keeps its laws, and tables and log keep their interfaces.
  pub life-Alive :
      (memtable_max_bytes now : ℕ) (xs : List Event)
      → AllCan laws log_laws filters codec xs
          (first_start filters tables logs codec memtable_max_bytes now)
      → ((happen_all filters tables logs codec xs
            (first_start filters tables logs codec memtable_max_bytes now)).0
          ≡ ok tt)
        × Alive bloom_laws laws log_laws codec Any
            (happen_all filters tables logs codec xs
              (first_start filters tables logs codec memtable_max_bytes now)).1
            (write_txs (all_brought xs) nothing)
  life-Alive memtable_max_bytes now xs can =
      life_with Any memtable_max_bytes now xs can (EachOf-Any (all_brought xs))

  Alive-LsmShows :
      (s : Lsm Bloom) (f : View)
      → Alive bloom_laws laws log_laws codec Any s f
      → LsmShows filters laws log_laws s f
  Alive-LsmShows s f h = record {
    table_list = h.table_list;
    lines = h.lines;
    sound = h.sound;
    logged = h.logged.held;
    shown = h.shown;
  }

  -- Let an `LSMStore` start in an empty data directory and go through transactions, flushes,
  -- pauses, clean shutdowns, crashes between two calls and crashes inside a flush, in any order,
  -- and a new `MemoryStore` through the same transactions and nothing else. Then a scan over a
  -- range that does not start after its end has the same outcome from both. A new id is none of the
  -- unfinished ones, log lines fit the room of a read, and tables, and the log at every start, the
  -- buffer, a flush that has something to write finds a name that is new and above the others and a
  -- bloom map file older than the clock, the bloom filter misses no key, bincode keeps its laws,
  -- and tables and log keep their interfaces.
  pub life-agrees :
      (memtable_max_bytes now : ℕ) (xs : List Event) (from to : Bytes)
      → AllCan laws log_laws filters codec xs
          (first_start filters tables logs codec memtable_max_bytes now)
      → blt to from ≡ false
      → ((lsm_store filters tables logs).scan from to
          (happen_all filters tables logs codec xs
            (first_start filters tables logs codec memtable_max_bytes now)).1).0
        ≡ (memory_store.scan from to (transact_all memory_store (all_brought xs) Memory.new)).0
  life-agrees memtable_max_bytes now xs from to can order =
      let s =
        (happen_all filters tables logs codec xs
          (first_start filters tables logs codec memtable_max_bytes now)).1 in
      let f = write_txs (all_brought xs) nothing in
      let alive = life-Alive memtable_max_bytes now xs can in
      scans-agree (lsm-ScansView filters laws log_laws) memory-IsStore.scans from to s
        (transact_all memory_store (all_brought xs) Memory.new) f (Alive-LsmShows s f alive.1)
        (transact_all-Shows memory-IsStore.transacts (all_brought xs) Memory.new nothing
          new-MemoryShows)
        order
