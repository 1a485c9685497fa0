-- ===== src/Tests/Memories.antt =====
-- The theorems on the store in memory, on a map with two entries.
use kave.Base.{[], ◌∷◌, ◌≡◌, refl}
use kave.Base.Bytes.{blt}
use kave.Base.Map.{get}
use kave.Error.{ok}
use kave.Store.Contract.{write_all}
use kave.Store.Memory.{MemoryStore, memory_store}
use kave.Store.Memory.Laws.{MemoryShows, memory_transact-MemoryShows}
use kave.Tests.World.{key_a, key_b, change}

abbrev two_keys : MemoryStore
two_keys = record { data_map = (key_a, b'1' ∷ []) ∷ (key_b, b'2' ∷ []) ∷ [] }

two_keys-MemoryShows : MemoryShows two_keys (λ k. get k two_keys.data_map)
unfolding blt
two_keys-MemoryShows = record { sorted = ((refl, tt), (tt, tt)); holds = λ k. refl }

memory_transact-MemoryShows_example :
    ((memory_store.transact change two_keys).0 ≡ ok tt)
    × MemoryShows
        (memory_store.transact change two_keys).1
        (write_all change.operations (λ k. get k two_keys.data_map))
memory_transact-MemoryShows_example =
    memory_transact-MemoryShows change two_keys (λ k. get k two_keys.data_map) two_keys-MemoryShows
