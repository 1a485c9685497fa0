-- ===== src/Store.antt =====
-- store/mod.rs: operations, transactions and the `Store` trait. `MemoryStore` is in Memory, the
-- contract of a store in Contract, the log-structured store in kave.Lsm.
pub mod Contract
pub mod Agree
pub mod Memory
use kave.Base.{ℕ, Option, List, if◌then◌else◌}
use kave.Base.Bytes.{Bytes, blt}
use kave.Base.Map.{Map, range}
use kave.Error.{Result, ok, panic}

pub data Operation : Type 0 where
  set : Bytes → Bytes → Operation
  delete : Bytes → Operation

-- A `Uuid` is the number that its 128 bits write.
abbrev pub Uuid : Type 0
Uuid = ℕ

pub record Transaction : Type 0 where
  pub id : Uuid
  pub operations : List Operation

-- `Transaction::with_random_id`, given what `Uuid::new_v4` drew.
unfoldable pub with_random_id : Uuid → List Operation → Transaction
with_random_id drawn operations = record { id = drawn; operations = operations }

-- The trait. A method borrows the store mutably: it returns the outcome and the store.
pub record Store (S : Type 0) : Type 0 where
  pub get : Bytes → S → Result (Option Bytes) × S
  pub scan : Bytes → Bytes → S → Result (List Bytes) × S
  pub transact : Transaction → S → Result (Unit {0}) × S

-- `BTreeMap::range(from..to)` panics if the range starts after its end.
unfoldable pub range_checked : {V : Type 0} → Bytes → Bytes → Map V → Result (Map V)
range_checked from to m = if blt to from then panic else ok (range from to m)
