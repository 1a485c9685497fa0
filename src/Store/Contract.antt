-- ===== src/Store/Contract.antt =====
-- What a store promises, in terms of the value that each key has.
use kave.Base.{Option, none, some, List, [], ◌∷◌, ◌≡◌, if◌then◌else◌, false}
use kave.Base.Bytes.{Bytes, beq, blt}
use kave.Base.Map.{Map, get, values, in_range, IsSorted}
use kave.Base.Map.Ext.{Map_ext}
use kave.Error.{ok}
use kave.Store.{Operation, set, delete, Transaction, Store}

-- The value of each key.
abbrev pub View : Type 0
View = Bytes → Option Bytes

abbrev pub write : Operation → View → View
write (set k v) f j = if beq j k then some v else f j
write (delete k) f j = if beq j k then none else f j

abbrev pub write_all : List Operation → View → View
write_all [] f = f
write_all (o ∷ os) f = write_all os (write o f)

-- `vs` are the values of the keys of the range that have one, in the order of the keys.
pub record Scans (f : View) (from to : Bytes) (vs : List Bytes) : Type 0 where
  pub entries : Map Bytes
  pub sorted : IsSorted entries
  pub found : (k : Bytes) → get k entries ≡ (if in_range from to k then f k else none)
  pub listed : values entries ≡ vs

-- A scan is determined by the view.
pub Scans-unique :
    {f : View} {from to : Bytes} {vs ws : List Bytes}
    → Scans f from to vs
    → Scans f from to ws
    → vs ≡ ws
Scans-unique p q =
    let same = Map_ext p.entries q.entries p.sorted q.sorted (λ i. cc (p.found i, q.found i)) in
    cc (p.listed, q.listed, same)

-- `Shows s f`: the store in state `s` is sound, and `f` is the value of each key. From such a state
-- `get` returns the value.
pub record Gets {S : Type 0} (store : Store S) (Shows : S → View → Type 0) : Type 0 where
  pub get_ok : (k : Bytes) (s : S) (f : View) → Shows s f → store.get k s ≡ (ok (f k), s)

-- `scan` returns the values of the range, if the range does not start after its end.
pub record ScansView {S : Type 0} (store : Store S) (Shows : S → View → Type 0) : Type 0 where
  pub scan_ok :
      (from to : Bytes) (s : S) (f : View)
      → Shows s f
      → blt to from ≡ false
      → (vs : List Bytes) × (store.scan from to s ≡ (ok vs, s)) × Scans f from to vs

-- `transact` returns, and writes its operations in their order.
pub record Transacts {S : Type 0} (store : Store S) (Shows : S → View → Type 0) : Type 0 where
  pub transact_ok :
      (tx : Transaction) (s : S) (f : View) → Shows s f → (store.transact tx s).0 ≡ ok tt
  pub transact_shows :
      (tx : Transaction) (s : S) (f : View)
      → Shows s f
      → Shows (store.transact tx s).1 (write_all tx.operations f)

-- The contract.
pub record IsStore {S : Type 0} (store : Store S) (Shows : S → View → Type 0) : Type 0 where
  pub gets : Gets store Shows
  pub scans : ScansView store Shows
  pub transacts : Transacts store Shows
