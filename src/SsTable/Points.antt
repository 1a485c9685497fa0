-- ===== src/SsTable/Points.antt =====
-- The index of an SSTable file against the values in it: `read_value` and the loops over it in
-- store/lsm/sstable.rs.
use mathlib.Core.Path.{subst}
use kave.Base.{
  ◌≤◌, ℕ, ◌+◌, [], ◌∷◌, ◌++◌, ◌≡◌, refl, sym, ap, ◌∙◌, arith, length, length-append, append_assoc,
  append-nil, Bool-cases, inl, inr, drop-append_length,
}
use kave.Base.Bytes.{Bytes, beq_iff}
use kave.Base.Map.{Map, get, range, keys, in_range}
use kave.Error.{ok}
use kave.External.{Codec, IsBincode, AsyncIo, FullReads}
use kave.Value.{Value}
use kave.SsTable.{Index, read_value, find_value, read_entries}
use kave.SsTable.Layout.{size_of, data_block, layout}

-- Entry by entry, the file holds the values of the map where the index says.
abbrev pub Points :
    (values : Codec Value) (indices : Codec Index) (tokio : AsyncIo)
    → Bytes
    → Index
    → Map Value
    → Type 0
Points values indices tokio bytes [] [] = Unit
Points values indices tokio bytes [] (_ ∷ _) = ⊥
Points values indices tokio bytes (_ ∷ _) [] = ⊥
Points values indices tokio bytes ((k, entry) ∷ index) ((j, v) ∷ m) =
    (k ≡ j)
    × (read_value values indices tokio bytes entry ≡ ok v)
    × Points values indices tokio bytes index m

module _ (values : Codec Value) (indices : Codec Index) (tokio : AsyncIo) (bytes : Bytes) where
  pub Points-range :
      (from to : Bytes) (index : Index) (m : Map Value)
      → Points values indices tokio bytes index m
      → Points values indices tokio bytes (range from to index) (range from to m)
  unfolding range
  Points-range from to [] [] p = tt
  Points-range from to [] (_ ∷ _) p = absurd p
  Points-range from to (_ ∷ _) [] p = absurd p
  Points-range from to ((k, entry) ∷ index) ((j, v) ∷ m) p =
      elim (Bool-cases (in_range from to j)) [
        | inl within ↦ rw (p.0, within) (refl, p.1, Points-range from to index m p.2)
        | inr outside ↦ rw (p.0, outside) (Points-range from to index m p.2)
      ]

  pub Points-keys :
      (index : Index) (m : Map Value)
      → Points values indices tokio bytes index m
      → keys index ≡ keys m
  unfolding keys
  Points-keys [] [] p = refl
  Points-keys [] (_ ∷ _) p = absurd p
  Points-keys (_ ∷ _) [] p = absurd p
  Points-keys ((k, entry) ∷ index) ((j, v) ∷ m) p = cc (p.0, Points-keys index m p.2)

  pub Points-find :
      (key : Bytes) (index : Index) (m : Map Value)
      → Points values indices tokio bytes index m
      → find_value values indices tokio bytes (get key index) ≡ ok (get key m)
  unfolding find_value get
  Points-find key [] [] p = refl
  Points-find key [] (_ ∷ _) p = absurd p
  Points-find key (_ ∷ _) [] p = absurd p
  Points-find key ((k, entry) ∷ index) ((j, v) ∷ m) p =
      ground (arith, beq_iff key k, beq_iff key j, Points-find key index m p.2)

  pub Points-read :
      (index : Index) (m : Map Value)
      → Points values indices tokio bytes index m
      → read_entries values indices tokio bytes index ≡ ok m
  unfolding read_entries
  Points-read [] [] p = refl
  Points-read [] (_ ∷ _) p = absurd p
  Points-read (_ ∷ _) [] p = absurd p
  Points-read ((k, entry) ∷ index) ((j, v) ∷ m) p = rw (p.1, Points-read index m p.2, p.0)

module _ {values : Codec Value} (bincode : IsBincode values) (indices : Codec Index)
    (tokio : AsyncIo) where
  pub read_value-at :
      (pre : Bytes) (v : Value) (rest : Bytes)
      → FullReads tokio
      → length (pre ++ (bincode.encoding v ++ rest)) ≤ tokio.buffer_size
      → read_value values indices tokio
          (pre ++ (bincode.encoding v ++ rest))
          (record { offset = length pre; size = size_of bincode v })
        ≡ ok v
  unfolding read_value
  read_value-at pre v rest full whole =
      let left : length (bincode.encoding v ++ rest) ≤ tokio.buffer_size =
        omega (arith, whole, length-append pre (bincode.encoding v ++ rest)) in
      rw
        (
          drop-append_length pre (bincode.encoding v ++ rest),
          full.fills (bincode.encoding v) rest left,
        )
        (ap values.deserialize (sym (append-nil (bincode.encoding v)))
          ∙ bincode.deserialize_ok v [])

  -- A data block behind any bytes, with its index.
  pub Points-layout :
      (m : Map Value) (pre : Bytes) (offset : ℕ) (bytes : Bytes)
      → FullReads tokio
      → length bytes ≤ tokio.buffer_size
      → offset ≡ length pre
      → bytes ≡ pre ++ data_block bincode m
      → Points values indices tokio bytes (layout bincode offset m) m
  Points-layout [] pre offset bytes full whole o h = tt
  Points-layout ((k, v) ∷ m) pre offset bytes full whole o h = (
    refl,
    rw (h, o)
        (read_value-at pre v (data_block bincode m) full
          (subst (λ (b : Bytes). length b ≤ tokio.buffer_size) h whole)),
    Points-layout m (pre ++ bincode.encoding v) (offset + size_of bincode v) bytes full whole
        (omega (arith, length-append pre (bincode.encoding v)))
        (h ∙ sym (append_assoc pre (bincode.encoding v) (data_block bincode m))),
  )
