-- ===== src/Store/Memory.antt =====
-- `MemoryStore` of store/mod.rs. Each method holds the mutex from its first line to its last, so a
-- call is one step.
pub mod Laws
use kave.Base.{Option, List, [], ◌∷◌}
use kave.Base.Bytes.{Bytes}
use kave.Base.Map.{Map, get, insert, remove, values}
use kave.Error.{Result, ok, ◌>>=◌}
use kave.Store.{Operation, set, delete, Transaction, Store, range_checked}

pub record MemoryStore : Type 0 where
  pub data_map : Map Bytes

unfoldable pub new : MemoryStore
new = record { data_map = [] }

-- The body of the loop over the instructions.
perform : Operation → Map Bytes → Map Bytes
perform (set key value) m = insert key value m
perform (delete key) m = remove key m

perform_all : List Operation → Map Bytes → Map Bytes
unfolding perform
perform_all [] m = m
perform_all (o ∷ os) m = perform_all os (perform o m)

memory_get : Bytes → MemoryStore → Result (Option Bytes) × MemoryStore
memory_get k s = (ok (get k s.data_map), s)

memory_scan : Bytes → Bytes → MemoryStore → Result (List Bytes) × MemoryStore
memory_scan from to s = (do found ← range_checked from to s.data_map; ok (values found), s)

memory_transact : Transaction → MemoryStore → Result (Unit {0}) × MemoryStore
unfolding perform_all
memory_transact tx s = (ok tt, record s { data_map = perform_all tx.operations s.data_map })

unfoldable pub memory_store : Store MemoryStore
unfolding memory_get memory_scan memory_transact
memory_store = record { get = memory_get; scan = memory_scan; transact = memory_transact }
