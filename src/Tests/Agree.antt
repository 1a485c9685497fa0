-- ===== src/Tests/Agree.antt =====
-- The theorem on the two stores, on the store of World and a map with the same values.
use kave.Base.{[], ◌∷◌, ◌≡◌, refl, arith}
use kave.Base.Bytes.{Bytes, beq_iff, blt}
use kave.Base.Map.{get}
use kave.Lsm.Agree.{scan-agrees}
use kave.Lsm.Contract.{lsm_store}
use kave.Lsm.Invariant.{found_in, view_of}
use kave.Lsm.Read.{data_of}
use kave.Store.Agree.{transact_all}
use kave.Store.Memory.{MemoryStore, memory_store}
use kave.Store.Memory.Laws.{MemoryShows}
use kave.Tests.World.{
  key_lists, tables, tables_laws, logs, log_laws, key_a, key_b, old_tables, removal, change, store,
  store-LsmShows,
}

abbrev same_values : MemoryStore
same_values = record { data_map = (key_b, b'3' ∷ []) ∷ [] }

same_values-holds : (k : Bytes) → get k same_values.data_map ≡ view_of store.memtable old_tables k
unfolding view_of found_in data_of get
same_values-holds k = ground (arith, beq_iff k key_a, beq_iff k key_b)

same_values-MemoryShows : MemoryShows same_values (view_of store.memtable old_tables)
same_values-MemoryShows = record { sorted = (tt, tt); holds = same_values-holds }

scan-agrees_example :
    ((lsm_store key_lists tables logs).scan key_a
      (b'c' ∷ [])
      (transact_all (lsm_store key_lists tables logs) (change ∷ removal ∷ []) store)).0
    ≡ (memory_store.scan key_a
        (b'c' ∷ [])
        (transact_all memory_store (change ∷ removal ∷ []) same_values)).0
scan-agrees_example =
    scan-agrees key_lists tables_laws log_laws (change ∷ removal ∷ []) key_a (b'c' ∷ []) store
      same_values (view_of store.memtable old_tables) store-LsmShows same_values-MemoryShows
      (unfold blt in refl)
