-- ===== src/SsTable/Layout.antt =====
-- The index and the bytes that `write` produces, with no loop.
use kave.Base.{
  ℕ, ◌+◌, ◌<◌, true, [], ◌∷◌, ◌++◌, ◌≡◌, refl, sym, ap, ◌∙◌, arith, length, length-append,
  append_assoc, append-nil,
}
use kave.Base.Bytes.{Bytes, blt, beq_iff, blt_asymm, blt_irrefl}
use kave.Base.Words.{u64_mod, mod-u64_mod}
use kave.Base.Map.{Map, insert, Above, IsSorted}
use kave.Error.{ok}
use kave.External.{Codec, IsBincode, AsyncIo}
use kave.Value.{Value}
use kave.SsTable.{IndexEntry, Index, shift, index_of, write_values}

-- Every key of the map is below `b`.
abbrev pub Below : {V : Type 0} → Bytes → Map V → Type 0
Below b [] = Unit
Below b ((k, v) ∷ m) = (blt k b ≡ true) × Below b m

module _ {V : Type 0} where
  -- A key above all others goes to the end.
  insert_last : (k : Bytes) (v : V) (m : Map V) → Below k m → insert k v m ≡ m ++ (k, v) ∷ []
  unfolding insert
  insert_last k v [] b = refl
  insert_last k v ((j, w) ∷ m) b =
      ground (arith, beq_iff k j, blt_irrefl k, blt_asymm j k, insert_last k v m b.1)

  Below-concat :
      (b k : Bytes) (v : V) (m : Map V) → Below b m → blt k b ≡ true → Below b (m ++ (k, v) ∷ [])
  Below-concat b k v [] h e = (e, tt)
  Below-concat b k v ((j, w) ∷ m) h e = (h.0, Below-concat b k v m h.1 e)

  -- Every key of the first map is below every key of the second.
  abbrev pub Before : {W : Type 0} → Map V → Map W → Type 0
  Before m [] = Unit
  Before m ((k, w) ∷ n) = Below k m × Before m n

module _ {values : Codec Value} (bincode : IsBincode values) where
  abbrev pub size_of : Value → ℕ
  size_of v = length (bincode.encoding v)

  -- The values one behind the other.
  abbrev pub data_block : Map Value → Bytes
  data_block [] = []
  data_block ((k, v) ∷ m) = bincode.encoding v ++ data_block m

  -- The index of a data block that begins at `offset`.
  abbrev pub layout : ℕ → Map Value → Index
  layout offset [] = []
  layout offset ((k, v) ∷ m) =
      (k, record { offset = offset; size = size_of v }) ∷ layout (offset + size_of v) m

  fits_step :
      (offset : ℕ) (k : Bytes) (v : Value) (m : Map Value)
      → offset + length (data_block ((k, v) ∷ m)) < u64_mod
      → offset + size_of v + length (data_block m) < u64_mod
  fits_step offset k v m h = omega (arith, length-append (bincode.encoding v) (data_block m))

module _ {V W : Type 0} where
  Before-concat :
      (k : Bytes) (v : V) (m : Map V) (n : Map W)
      → Before m n
      → Above k n
      → Before (m ++ (k, v) ∷ []) n
  Before-concat k v m [] h a = tt
  Before-concat k v m ((j, w) ∷ n) h a =
      (Below-concat j k v m h.0 a.0, Before-concat k v m n h.1 a.1)

pub Before-nil : {W : Type 0} (V : Type 0) (n : Map W) → Before {V = V} [] n
Before-nil V [] = tt
Before-nil V ((j, w) ∷ n) = (tt, Before-nil V n)

module _ {values : Codec Value} (bincode : IsBincode values) (indices : Codec Index)
    (tokio : AsyncIo) where
  pub index_of-layout :
      (m : Map Value) (offset : ℕ) (index : Index)
      → IsSorted m
      → Before index m
      → offset + length (data_block bincode m) < u64_mod
      → index_of values indices tokio m offset index ≡ ok (index ++ layout bincode offset m)
  unfolding index_of
  index_of-layout [] offset index s b fits = ap ok (sym (append-nil index))
  index_of-layout ((k, v) ∷ m) offset index s b fits =
      let size = size_of bincode v in
      let room = fits_step bincode offset k v m fits in
      let entry : IndexEntry = record { offset = offset; size = size } in
      rw
        (
          bincode.serialized_size_ok v,
          mod-u64_mod (offset + size) (omega (arith, room)),
          insert_last k entry index b.0,
        )
        (index_of-layout m (offset + size) (index ++ (k, entry) ∷ []) s.1
            (Before-concat k entry index m b.1 s.0) room
          ∙ ap ok (append_assoc index ((k, entry) ∷ []) (layout bincode (offset + size) m)))

  pub write_values-data_block :
      (m : Map Value) (written : Bytes)
      → write_values values indices tokio m written ≡ (ok tt, written ++ data_block bincode m)
  unfolding write_values
  write_values-data_block [] written = rw append-nil
  write_values-data_block ((k, v) ∷ m) written =
      rw (bincode.serialize_ok v, write_values)
        (write_values-data_block m (written ++ bincode.encoding v)
          ∙ ap (λ (b : Bytes). (ok tt, b))
              (append_assoc written (bincode.encoding v) (data_block bincode m)))

pub shift-layout :
    {values : Codec Value} (bincode : IsBincode values) (d offset : ℕ) (m : Map Value)
    → offset + d + length (data_block bincode m) < u64_mod
    → shift d (layout bincode offset m) ≡ layout bincode (offset + d) m
unfolding shift
shift-layout bincode d offset [] fits = refl
shift-layout bincode d offset ((k, v) ∷ m) fits =
    let size = size_of bincode v in
    let room = fits_step bincode (offset + d) k v m fits in
    let moved : offset + size + d ≡ offset + d + size = omega arith in
    rw (mod-u64_mod (offset + d) (omega (arith, room)), ← moved)
      (ap (◌∷◌ (k, record { offset = offset + d; size = size }))
        (shift-layout bincode d (offset + size) m (omega (arith, room))))
