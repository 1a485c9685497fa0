-- ===== src/Base/Map.antt =====
-- `std::collections::BTreeMap` with string keys, as the list of its entries in key order.
-- `get`, `insert`, `remove`, `range` and iteration are those of the standard library.
pub mod Laws
pub mod Ext
use kave.Base.{
  ℕ, Bool, true, false, not, ◌&&◌, Option, none, some, List, [], ◌∷◌, ◌≡◌, if◌then◌else◌,
}
use kave.Base.Bytes.{Bytes, beq, blt}

abbrev pub Map : Type 0 → Type 0
Map V = List (Bytes × V)

-- `from..to`: the lower end is included, the upper is not.
abbrev pub in_range : Bytes → Bytes → Bytes → Bool
in_range from to k = not (blt k from) && blt k to

module _ {V : Type 0} where
  unfoldable pub get : Bytes → Map V → Option V
  get k [] = none
  get k ((j, v) ∷ m) = if beq k j then some v else get k m

  unfoldable pub insert : Bytes → V → Map V → Map V
  insert k v [] = (k, v) ∷ []
  insert k v ((j, w) ∷ m) =
      if beq k j then (k, v) ∷ m else if blt k j then (k, v) ∷ (j, w) ∷ m else (j, w) ∷ insert k v m

  unfoldable pub remove : Bytes → Map V → Map V
  remove k [] = []
  remove k ((j, w) ∷ m) = let rest = remove k m in if beq k j then rest else (j, w) ∷ rest

  -- the entries of a range, where the ends are in order
  unfoldable pub range : Bytes → Bytes → Map V → Map V
  range from to [] = []
  range from to ((j, w) ∷ m) =
      let rest = range from to m in if in_range from to j then (j, w) ∷ rest else rest

  -- Inserting the entries of a list one after another, as in `collect`.
  unfoldable pub insert_all : Map V → Map V → Map V
  insert_all [] m = m
  insert_all ((k, v) ∷ es) m = insert_all es (insert k v m)

  unfoldable pub keys : Map V → List Bytes
  keys [] = []
  keys ((k, v) ∷ m) = k ∷ keys m

  unfoldable pub values : Map V → List V
  values [] = []
  values ((k, v) ∷ m) = v ∷ values m

  abbrev pub Above : Bytes → Map V → Type 0
  Above k [] = Unit
  Above k ((j, w) ∷ m) = (blt k j ≡ true) × Above k m

  abbrev pub IsSorted : Map V → Type 0
  IsSorted [] = Unit
  IsSorted ((k, v) ∷ m) = Above k m × IsSorted m
