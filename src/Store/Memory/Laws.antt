-- ===== src/Store/Memory/Laws.antt =====
-- `MemoryStore` of store/mod.rs against the contract of a store.
use kave.Base.{none, true, false, List, [], ◌∷◌, ◌≡◌, refl, arith}
use kave.Base.Bytes.{Bytes, blt}
use kave.Base.Map.{Map, get, range, values, IsSorted}
use kave.Base.Map.Laws.{
  get-insert, get-remove, get-range, insert-IsSorted, remove-IsSorted, range-IsSorted,
}
use kave.Error.{ok, panic}
use kave.Store.{Operation, set, delete, Transaction, range_checked}
use kave.Store.Contract.{View, write, write_all, Scans, IsStore}
use kave.Store.Memory.{MemoryStore, new, perform, perform_all, memory_scan, memory_store}

-- The map has its keys in order, and `f` is what it holds.
pub record MemoryShows (s : MemoryStore) (f : View) : Type 0 where
  pub sorted : IsSorted s.data_map
  pub holds : (k : Bytes) → get k s.data_map ≡ f k

-- The new store, in which no key has a value.
pub new-MemoryShows : MemoryShows new (λ k. none)
unfolding new get
new-MemoryShows = record { sorted = tt; holds = λ k. refl }

get-perform :
    (o : Operation) (m : Map Bytes) (f : View)
    → ((i : Bytes) → get i m ≡ f i)
    → (j : Bytes) → get j (perform o m) ≡ write o f j
unfolding perform
get-perform (set k v) m f h j = ground (arith, get-insert j k v m, h j)
get-perform (delete k) m f h j = ground (arith, get-remove j k m, h j)

get-perform_all :
    (os : List Operation) (m : Map Bytes) (f : View)
    → ((i : Bytes) → get i m ≡ f i)
    → (j : Bytes) → get j (perform_all os m) ≡ write_all os f j
unfolding perform_all
get-perform_all [] m f h j = h j
get-perform_all (o ∷ os) m f h j =
    get-perform_all os (perform o m) (write o f) (get-perform o m f h) j

perform-IsSorted : (o : Operation) (m : Map Bytes) → IsSorted m → IsSorted (perform o m)
unfolding perform
perform-IsSorted (set k v) m s = insert-IsSorted k v m s
perform-IsSorted (delete k) m s = remove-IsSorted k m s

perform_all-IsSorted :
    (os : List Operation) (m : Map Bytes) → IsSorted m → IsSorted (perform_all os m)
unfolding perform_all
perform_all-IsSorted [] m s = s
perform_all-IsSorted (o ∷ os) m s = perform_all-IsSorted os (perform o m) (perform-IsSorted o m s)

memory-Scans :
    (from to : Bytes) (s : MemoryStore) (f : View)
    → MemoryShows s f
    → Scans f from to (values (range from to s.data_map))
memory-Scans from to s f h = record {
  entries = range from to s.data_map;
  sorted = range-IsSorted from to s.data_map h.sorted;
  found = λ k. rw (get-range, h.holds k);
  listed = refl;
}

scan_in_order :
    (from to : Bytes) (s : MemoryStore)
    → blt to from ≡ false
    → memory_scan from to s ≡ (ok (values (range from to s.data_map)), s)
unfolding memory_scan range_checked
scan_in_order from to s h = rw h

-- From a map in key order with some values, a scan of the memory store over a range that does not
-- start after its end changes nothing and returns the values of the keys in the range, in the order
-- of the keys.
pub memory_scan-Scans :
    (from to : Bytes) (s : MemoryStore) (f : View)
    → MemoryShows s f
    → blt to from ≡ false
    → (vs : List Bytes) × (memory_store.scan from to s ≡ (ok vs, s)) × Scans f from to vs
unfolding memory_store
memory_scan-Scans from to s f h o =
    (values (range from to s.data_map), scan_in_order from to s o, memory-Scans from to s f h)

-- From a map in key order with some values, a transaction of the memory store returns `Ok` and
-- leaves a map in key order, with those values after the transaction's operations, in their order.
pub memory_transact-MemoryShows :
    (tx : Transaction) (s : MemoryStore) (f : View)
    → MemoryShows s f
    → ((memory_store.transact tx s).0 ≡ ok tt)
      × MemoryShows (memory_store.transact tx s).1 (write_all tx.operations f)
unfolding memory_store
memory_transact-MemoryShows tx s f h = (
  refl,
  record {
    sorted = perform_all-IsSorted tx.operations s.data_map h.sorted;
    holds = get-perform_all tx.operations s.data_map f h.holds;
  },
)

-- A `MemoryStore` keeps the contract of a store.
pub memory-IsStore : IsStore memory_store MemoryShows
memory-IsStore = record {
  gets = record { get_ok = λ k s f h. unfold memory_store in rw (h.holds k) };
  scans = record { scan_ok = memory_scan-Scans };
  transacts = record {
    transact_ok = λ tx s f h. (memory_transact-MemoryShows tx s f h).0;
    transact_shows = λ tx s f h. (memory_transact-MemoryShows tx s f h).1;
  };
}

-- A scan whose range starts after its end panics.
pub memory_scan-panic :
    (from to : Bytes) (s : MemoryStore)
    → blt to from ≡ true
    → (memory_store.scan from to s).0 ≡ panic
unfolding memory_store range_checked
memory_scan-panic from to s h = rw h
