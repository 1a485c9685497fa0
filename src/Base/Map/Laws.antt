-- ===== src/Base/Map/Laws.antt =====
-- `get` after each operation on a map, and the order of the keys.
use kave.Base.{true, Option, none, some, [], ◌∷◌, ◌≡◌, refl, arith, if◌then◌else◌}
use kave.Base.Bytes.{Bytes, beq, blt, beq_iff, blt_irrefl, blt_trans, blt_total}
use kave.Base.Map.{Map, get, insert, remove, range, insert_all, in_range, Above, IsSorted}

module _ {V : Type 0} where
  pub get-insert :
      (j k : Bytes) (v : V) (m : Map V)
      → get j (insert k v m) ≡ (if beq j k then some v else get j m)
  unfolding get insert
  get-insert j k v [] = refl
  get-insert j k v ((i, w) ∷ m) =
      ground (arith, beq_iff j k, beq_iff k i, beq_iff j i, get-insert j k v m)

  pub get-remove :
      (j k : Bytes) (m : Map V) → get j (remove k m) ≡ (if beq j k then none else get j m)
  unfolding get remove
  get-remove j k [] = ground arith
  get-remove j k ((i, w) ∷ m) =
      ground (arith, beq_iff j k, beq_iff k i, beq_iff j i, get-remove j k m)

  pub get-range :
      (j from to : Bytes) (m : Map V)
      → get j (range from to m) ≡ (if in_range from to j then get j m else none)
  unfolding get range
  get-range j from to [] = ground arith
  get-range j from to ((i, w) ∷ m) = ground (arith, beq_iff j i, get-range j from to m)

  pub Above-insert :
      (b k : Bytes) (v : V) (m : Map V) → blt b k ≡ true → Above b m → Above b (insert k v m)
  unfolding insert
  Above-insert b k v [] h a = (h, tt)
  Above-insert b k v ((j, w) ∷ m) h a = ground (arith, Above-insert b k v m h a.1)

  pub Above-mono : (b c : Bytes) (m : Map V) → blt b c ≡ true → Above c m → Above b m
  Above-mono b c [] h a = tt
  Above-mono b c ((j, w) ∷ m) h a = (blt_trans b c j h a.0, Above-mono b c m h a.1)

  pub insert-IsSorted : (k : Bytes) (v : V) (m : Map V) → IsSorted m → IsSorted (insert k v m)
  unfolding insert
  insert-IsSorted k v [] s = (tt, tt)
  insert-IsSorted k v ((j, w) ∷ m) s = ground (
    arith,
    beq_iff k j,
    Above-mono k j m,
    blt_total k j,
    Above-insert j k v m,
    insert-IsSorted k v m s.1,
  )

  pub Above-remove : (b k : Bytes) (m : Map V) → Above b m → Above b (remove k m)
  unfolding remove
  Above-remove b k [] a = tt
  Above-remove b k ((j, w) ∷ m) a = ground (arith, Above-remove b k m a.1)

  pub remove-IsSorted : (k : Bytes) (m : Map V) → IsSorted m → IsSorted (remove k m)
  unfolding remove
  remove-IsSorted k [] s = tt
  remove-IsSorted k ((j, w) ∷ m) s = ground (arith, Above-remove j k m s.0, remove-IsSorted k m s.1)

  pub Above-range : (b from to : Bytes) (m : Map V) → Above b m → Above b (range from to m)
  unfolding range
  Above-range b from to [] a = tt
  Above-range b from to ((j, w) ∷ m) a = ground (arith, Above-range b from to m a.1)

  pub range-IsSorted : (from to : Bytes) (m : Map V) → IsSorted m → IsSorted (range from to m)
  unfolding range
  range-IsSorted from to [] s = tt
  range-IsSorted from to ((j, w) ∷ m) s =
      ground (arith, Above-range j from to m s.0, range-IsSorted from to m s.1)

  pub insert_all-IsSorted : (es m : Map V) → IsSorted m → IsSorted (insert_all es m)
  unfolding insert_all
  insert_all-IsSorted [] m s = s
  insert_all-IsSorted ((k, v) ∷ es) m s =
      insert_all-IsSorted es (insert k v m) (insert-IsSorted k v m s)

  pub Above-get : (k : Bytes) (m : Map V) → Above k m → get k m ≡ none
  unfolding get
  Above-get k [] a = refl
  Above-get k ((j, w) ∷ m) a = ground (arith, beq_iff k j, blt_irrefl k, Above-get k m a.1)

-- What a map holds over what another holds.
abbrev pub over : {V : Type 0} → Option V → Option V → Option V
over none b = b
over (some v) b = some v

module _ {V : Type 0} where
  -- On a list with distinct keys, the entries inserted win.
  pub get-insert_all :
      (j : Bytes) (es m : Map V) → IsSorted es → get j (insert_all es m) ≡ over (get j es) (get j m)
  unfolding get insert_all
  get-insert_all j [] m s = refl
  get-insert_all j ((k, v) ∷ es) m s = ground (
    arith,
    get-insert_all j es (insert k v m) s.1,
    get-insert j k v m,
    beq_iff j k,
    Above-get k es s.0,
  )
