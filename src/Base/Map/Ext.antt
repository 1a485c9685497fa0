-- ===== src/Base/Map/Ext.antt =====
-- Maps compared by their lookups.
use mathlib.Core.Path.{subst}
use kave.Base.{false, some, [], ◌∷◌, ◌≡◌, refl, sym, arith}
use kave.Base.Bytes.{Bytes, blt, beq_iff, beq_refl, blt_irrefl, blt_total}
use kave.Base.Map.{Map, get, Above, IsSorted}
use kave.Base.Map.Laws.{Above-get, Above-mono}

module _ {V : Type 0} where
  get_head : (k : Bytes) (v : V) (m : Map V) → get k ((k, v) ∷ m) ≡ some v
  unfolding get
  get_head k v m = ground (arith, beq_refl k)

  -- The least key of one map is the least of the other.
  head_key :
      (k : Bytes) (v : V) (m : Map V) (j : Bytes) (w : V) (n : Map V)
      → Above j n
      → get k ((j, w) ∷ n) ≡ some v
      → blt k j ≡ false
  unfolding get
  head_key k v m j w n a h =
      ground (arith, beq_iff k j, blt_irrefl k, Above-mono k j n, Above-get k n)

  same_tail :
      (k : Bytes) (v w : V) (m n : Map V)
      → Above k m
      → Above k n
      → ((i : Bytes) → get i ((k, v) ∷ m) ≡ get i ((k, w) ∷ n))
      → (i : Bytes) → get i m ≡ get i n
  unfolding get
  same_tail k v w m n a b h i = ground (arith, h i, beq_iff i k, Above-get k m a, Above-get k n b)

  same_key :
      (k : Bytes) (v : V) (m : Map V) (j : Bytes) (w : V) (n : Map V)
      → IsSorted ((k, v) ∷ m)
      → IsSorted ((j, w) ∷ n)
      → ((i : Bytes) → get i ((k, v) ∷ m) ≡ get i ((j, w) ∷ n))
      → k ≡ j
  same_key k v m j w n s t h = ground (
    arith,
    beq_iff k j,
    blt_total k j,
    get_head k v m,
    get_head j w n,
    h k,
    h j,
    head_key k v m j w n t.0,
    head_key j w n k v m s.0,
  )

  same_entries :
      (k : Bytes) (v : V) (m : Map V) (j : Bytes) (w : V) (n : Map V)
      → k ≡ j
      → v ≡ w
      → m ≡ n
      → ◌≡◌ {A = Map V} ((k, v) ∷ m) ((j, w) ∷ n)
  same_entries k v m j w n p q r = λ i. (p i, q i) ∷ r i

  same_value :
      (k j : Bytes) (v w : V) (m n : Map V)
      → k ≡ j
      → get k ((k, v) ∷ m) ≡ get k ((j, w) ∷ n)
      → v ≡ w
  unfolding get
  same_value k j v w m n p h = ground (arith, beq_iff k j, beq_refl k)

  pub Map_ext : (m n : Map V) → IsSorted m → IsSorted n → ((i : Bytes) → get i m ≡ get i n) → m ≡ n
  Map_ext [] [] s t h = refl
  Map_ext [] ((j, w) ∷ n) s t h = unfold get in ground (arith, h j, get_head j w n)
  Map_ext ((k, v) ∷ m) [] s t h = unfold get in ground (arith, h k, get_head k v m)
  Map_ext ((k, v) ∷ m) ((j, w) ∷ n) s t h =
      let e = same_key k v m j w n s t h in
      same_entries k v m j w n e (same_value k j v w m n e (h k)) (
        Map_ext m n s.1 t.1 (
          same_tail k v w m n s.0 (subst (λ x. Above x n) (sym e) t.0)
            (subst (λ x. (i : Bytes) → get i ((k, v) ∷ m) ≡ get i ((x, w) ∷ n)) (sym e) h)))
