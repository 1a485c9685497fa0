-- ===== src/Lsm/Lifetime/Gets.antt =====
-- `get` of store/lsm.rs behind any life of the store.
use kave.Base.{ℕ, false, some, List, [], ◌∷◌, ◌≡◌, ◌≢◌, ◌∙◌, sym, ap, arith, Option}
use kave.Base.Bytes.{Bytes, beq}
use kave.Base.Map.{Map, get}
use kave.Base.Map.Laws.{get-insert}
use kave.CommitLog.Interface.{Logs, IsLogs}
use kave.CommitLog.Unfinished.{unfinished}
use kave.Error.{ok}
use kave.External.{Codec, IsBincode}
use kave.Lsm.{Lsm, BloomFilter, BloomMap, perform, perform_all}
use kave.Lsm.Contract.{lsm_store, lsm_get-view}
use kave.Lsm.Invariant.{NoFalseNegatives}
use kave.Lsm.Lifetime.{Event, all_brought, happen_all, AllCan}
use kave.Lsm.Lifetime.Alive.{Alive}
use kave.Lsm.Lifetime.Each.{EachOf, EachOf-map}
use kave.Lsm.Lifetime.Whole.{first_start, nothing, life_with}
use kave.Lsm.Read.{lsm_get}
use kave.Lsm.Recovery.Replay.{perform_txs}
use kave.SsTable.Interface.{Tables, IsTables}
use kave.Store.{Operation, set, delete, Transaction}
use kave.Store.Agree.{transact_all, write_txs, transact_all-Shows}
use kave.Store.Contract.{View}
use kave.Store.Memory
use kave.Store.Memory.{memory_store}
use kave.Store.Memory.Laws.{new-MemoryShows, memory-IsStore}
use kave.Value.{Value, present, tombstone}

-- No operation deletes the key.
abbrev pub NoDelete : Bytes → List Operation → Type 0
NoDelete k [] = Unit
NoDelete k (set j v ∷ os) = NoDelete k os
NoDelete k (delete j ∷ os) = (beq k j ≡ false) × NoDelete k os

perform_all-kept :
    (k : Bytes) (os : List Operation) (m : Map Value)
    → NoDelete k os
    → get k m ≢ some tombstone
    → get k (perform_all os m) ≢ some tombstone
unfolding perform_all perform
perform_all-kept k [] m none_of h = h
perform_all-kept k (set j v ∷ os) m none_of h =
    perform_all-kept k os (perform (set j v) m) none_of
      (λ e. ground (arith, get-insert k j (present v) m, h))
perform_all-kept k (delete j ∷ os) m none_of h =
    perform_all-kept k os (perform (delete j) m) none_of.1
      (λ e. ground (arith, get-insert k j tombstone m, h, none_of.0))

perform_txs-kept :
    (k : Bytes) (txs : List Transaction) (m : Map Value)
    → EachOf (λ tx. NoDelete k tx.operations) txs
    → get k m ≢ some tombstone
    → get k (perform_txs txs m) ≢ some tombstone
unfolding perform_txs
perform_txs-kept k [] m each h = h
perform_txs-kept k (tx ∷ txs) m each h =
    perform_txs-kept k txs (perform_all tx.operations m) each.1
      (perform_all-kept k tx.operations m each.0 h)

module _ {Bloom : Type 0} {filters : BloomFilter Bloom} (bloom_laws : NoFalseNegatives filters)
    {tables : Tables} (laws : IsTables tables) {logs : Logs} (log_laws : IsLogs logs)
    {codec : Codec (BloomMap Bloom)} (bincode : IsBincode codec) where
  pub get-Alive :
      (P : Transaction → Type 0) (k : Bytes) (s : Lsm Bloom) (f : View)
      → ((tx : Transaction) → P tx → NoDelete k tx.operations)
      → Alive bloom_laws laws log_laws codec P s f
      → lsm_get filters tables k s ≡ (ok (f k), s)
  unfolding get
  get-Alive P k s f kept h =
      let live : get k (perform_txs (unfinished h.lines) []) ≢ some tombstone =
        perform_txs-kept k (unfinished h.lines) []
          (EachOf-map P (λ tx. NoDelete k tx.operations) kept (unfinished h.lines) h.each)
          (λ e. cc e) in
      lsm_get-view filters laws k s h.table_list h.sound
        (λ e. absurd (live (ap (get k) (sym h.logged.memtable_is) ∙ e)))
      ∙ ap (λ (v : Option Bytes). (ok v, s)) (h.shown k)

  -- Let an `LSMStore` start in an empty data directory and go through transactions, flushes,
  -- pauses, clean shutdowns, crashes between two calls and crashes inside a flush, in any order,
  -- and a new `MemoryStore` through the same transactions and nothing else. If none of them deletes
  -- the key, `get` of the key has the same outcome from both. A new id is none of the unfinished
  -- ones, log lines fit the room of a read, and tables, and the log at every start, the buffer, a
  -- flush that has something to write finds a name that is new and above the others and a bloom map
  -- file older than the clock, the bloom filter misses no key, bincode keeps its laws, and tables
  -- and log keep their interfaces.
  pub life-get :
      (memtable_max_bytes now : ℕ) (xs : List Event) (k : Bytes)
      → AllCan laws log_laws filters codec xs
          (first_start filters tables logs codec memtable_max_bytes now)
      → EachOf (λ tx. NoDelete k tx.operations) (all_brought xs)
      → ((lsm_store filters tables logs).get k
          (happen_all filters tables logs codec xs
            (first_start filters tables logs codec memtable_max_bytes now)).1).0
        ≡ (memory_store.get k (transact_all memory_store (all_brought xs) Memory.new)).0
  unfolding lsm_store
  life-get memtable_max_bytes now xs k can kept =
      let s =
        (happen_all filters tables logs codec xs
          (first_start filters tables logs codec memtable_max_bytes now)).1 in
      let f = write_txs (all_brought xs) nothing in
      let alive =
        life_with bloom_laws laws log_laws bincode (λ tx. NoDelete k tx.operations)
          memtable_max_bytes now xs can kept in
      let memory =
        memory-IsStore.gets.get_ok k (transact_all memory_store (all_brought xs) Memory.new) f (
          transact_all-Shows memory-IsStore.transacts (all_brought xs) Memory.new nothing
            new-MemoryShows) in
      cc (get-Alive (λ tx. NoDelete k tx.operations) k s f (λ tx h. h) alive.1, memory)
