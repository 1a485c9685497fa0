-- ===== src/Lsm/Agree.antt =====
-- `LSMStore` of store/lsm.rs and `MemoryStore` of store/mod.rs side by side.
use kave.Base.{List, ◌≡◌, false}
use kave.Base.Bytes.{Bytes, blt}
use kave.CommitLog.Interface.{Logs, IsLogs}
use kave.Lsm.{Lsm, BloomFilter}
use kave.Lsm.Contract.{lsm_store, LsmShows, lsm-Transacts, lsm-ScansView}
use kave.SsTable.Interface.{Tables, IsTables}
use kave.Store.{Transaction}
use kave.Store.Agree.{transact_all, write_txs, transact_all-Shows, scans-agree}
use kave.Store.Contract.{View}
use kave.Store.Memory.{MemoryStore, memory_store}
use kave.Store.Memory.Laws.{MemoryShows, memory-IsStore}

module _ {Bloom : Type 0} (filters : BloomFilter Bloom) {tables : Tables} (laws : IsTables tables)
    {logs : Logs} (log_laws : IsLogs logs) where
  -- Begin with an `LSMStore` in a sound state whose log file holds some lines, and a `MemoryStore`
  -- in key order, in which every key has the same value. Behind the same transactions, one after
  -- the other, a scan over a range that does not start after its end has the same outcome from
  -- both. Tables and log keep their interfaces.
  pub scan-agrees :
      (txs : List Transaction) (from to : Bytes) (s : Lsm Bloom) (m : MemoryStore) (f : View)
      → LsmShows filters laws log_laws s f
      → MemoryShows m f
      → blt to from ≡ false
      → ((lsm_store filters tables logs).scan from to
          (transact_all (lsm_store filters tables logs) txs s)).0
        ≡ (memory_store.scan from to (transact_all memory_store txs m)).0
  scan-agrees txs from to s m f p q order =
      scans-agree (lsm-ScansView filters laws log_laws) memory-IsStore.scans from to
        (transact_all (lsm_store filters tables logs) txs s) (transact_all memory_store txs m)
        (write_txs txs f) (transact_all-Shows (lsm-Transacts filters laws log_laws) txs s f p)
        (transact_all-Shows memory-IsStore.transacts txs m f q) order
