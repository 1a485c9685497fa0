-- ===== src/SsTable/Short.antt =====
-- `search` of store/lsm/sstable.rs where a read may be short.
use kave.Base.{
  ℕ, ◌+◌, ◌≤◌, [], ◌∷◌, ◌++◌, ◌≡◌, refl, sym, ap, ◌∙◌, ◌⊎◌, inl, inr, arith, length, length-append,
  append_assoc, append-nil, take, take-append_le, take-append_length, drop-append_length, ltb,
  Bool-cases,
}
use kave.Base.Bytes.{Bytes, beq}
use kave.Base.Map.{Map, get}
use kave.Base.Words.{to_be_bytes, length-to_be_bytes}
use kave.Error.{ok, err, bincode_error}
use kave.External.{Codec, IsBincode, AsyncIo, IsBigEndian, Reads}
use kave.SsTable.{Index, Directory, read_index, read_value, find_value, search}
use kave.SsTable.Layout.{size_of, data_block, layout}
use kave.SsTable.RoundTrip.{
  FixedInts, TableFits, HasTable, table_bytes, index_size, index_block, length-index_block,
  contents_lem, file_handle_lem,
}
use kave.Value.{Value}

-- The first bytes of an encoding, and what is behind it, decode to the value or not at all.
decode-front :
    {A : Type 0} {codec : Codec A} (bincode : IsBincode codec) (a : A) (rest : Bytes) (n : ℕ)
    → n ≤ length (bincode.encoding a)
    → (codec.deserialize (take n (bincode.encoding a ++ rest)) ≡ ok a)
      ⊎ (codec.deserialize (take n (bincode.encoding a ++ rest)) ≡ err bincode_error)
decode-front {A} {codec} bincode a rest n h =
    let body = bincode.encoding a in
    elim (Bool-cases (ltb n (length body))) [
      | inl short ↦
          inr (
            rw (take-append_le n body rest h) (bincode.deserialize_cut a n (ground (arith, short))))
      | inr full ↦
          let all : n ≡ length body = ground (arith, full, h) in
          inl (
            rw (all, take-append_length body rest)
              (ap codec.deserialize (sym (append-nil body)) ∙ bincode.deserialize_ok a []))
    ]

-- Entry by entry, a read of the value comes to it or to the error.
abbrev Guarded :
    (values : Codec Value) (indices : Codec Index) (tokio : AsyncIo)
    → Bytes
    → Index
    → Map Value
    → Type 0
Guarded values indices tokio bytes [] [] = Unit
Guarded values indices tokio bytes [] (_ ∷ _) = ⊥
Guarded values indices tokio bytes (_ ∷ _) [] = ⊥
Guarded values indices tokio bytes ((k, entry) ∷ index) ((j, v) ∷ m) =
    (k ≡ j)
    × ((read_value values indices tokio bytes entry ≡ ok v)
        ⊎ (read_value values indices tokio bytes entry ≡ err bincode_error))
    × Guarded values indices tokio bytes index m

Guarded-find :
    (values : Codec Value) (indices : Codec Index) (tokio : AsyncIo) (bytes key : Bytes)
    (index : Index) (m : Map Value)
    → Guarded values indices tokio bytes index m
    → (find_value values indices tokio bytes (get key index) ≡ ok (get key m))
      ⊎ (find_value values indices tokio bytes (get key index) ≡ err bincode_error)
unfolding find_value get
Guarded-find values indices tokio bytes key [] [] p = inl refl
Guarded-find values indices tokio bytes key [] (_ ∷ _) p = absurd p
Guarded-find values indices tokio bytes key (_ ∷ _) [] p = absurd p
Guarded-find values indices tokio bytes key ((k, entry) ∷ index) ((j, v) ∷ m) p =
    elim (Bool-cases (beq key j)) [
      | inl here ↦ elim p.1 [
        | inl found ↦ inl (rw (p.0, here, found) refl)
        | inr short ↦ inr (rw (p.0, here, short) refl)
      ]
      | inr other ↦ rw (p.0, other) (Guarded-find values indices tokio bytes key index m p.2)
    ]

module _ {values : Codec Value} (bincode : IsBincode values) {indices : Codec Index}
    (index_bincode : IsBincode indices) {tokio : AsyncIo} (big_endian : IsBigEndian tokio)
    (reads : Reads tokio) where
  read_value-guarded :
      (pre : Bytes) (v : Value) (rest : Bytes)
      → (read_value values indices tokio
            (pre ++ (bincode.encoding v ++ rest))
            (record { offset = length pre; size = size_of bincode v })
          ≡ ok v)
        ⊎ (read_value values indices tokio
              (pre ++ (bincode.encoding v ++ rest))
              (record { offset = length pre; size = size_of bincode v })
            ≡ err bincode_error)
  unfolding read_value
  read_value-guarded pre v rest =
      let (n, within, read) = reads (bincode.encoding v ++ rest) (size_of bincode v) in
      rw (drop-append_length pre (bincode.encoding v ++ rest), read)
        (decode-front bincode v rest n within)

  Guarded-layout :
      (m : Map Value) (pre : Bytes) (offset : ℕ) (bytes : Bytes)
      → offset ≡ length pre
      → bytes ≡ pre ++ data_block bincode m
      → Guarded values indices tokio bytes (layout bincode offset m) m
  Guarded-layout [] pre offset bytes o h = tt
  Guarded-layout ((k, v) ∷ m) pre offset bytes o h = (
    refl,
    rw (h, o) (read_value-guarded pre v (data_block bincode m)),
    Guarded-layout m (pre ++ bincode.encoding v) (offset + size_of bincode v) bytes
        (omega (arith, length-append pre (bincode.encoding v)))
        (h ∙ sym (append_assoc pre (bincode.encoding v) (data_block bincode m))),
  )

  read_index-guarded :
      (m : Map Value)
      → FixedInts index_bincode
      → TableFits bincode index_bincode big_endian m
      → (read_index values indices tokio (table_bytes bincode index_bincode big_endian m)
          ≡ ok (layout bincode (8 + index_size bincode index_bincode big_endian m) m))
        ⊎ (read_index values indices tokio (table_bytes bincode index_bincode big_endian m)
            ≡ err bincode_error)
  unfolding read_index
  read_index-guarded m fixed fits =
      let size = index_size bincode index_bincode big_endian m in
      let block = index_block bincode index_bincode big_endian m in
      let (n, within, read) = reads (block ++ data_block bincode m) size in
      rw
        (
          append_assoc (to_be_bytes size) block (data_block bincode m),
          big_endian.read_u64_ok size (block ++ data_block bincode m) (omega (arith, fits)),
          read,
        )
        (decode-front index_bincode (layout bincode (8 + size) m) (data_block bincode m) n
          (omega (arith, within, length-index_block bincode index_bincode big_endian m fixed fits)))

  -- Where the directory has the file of a map, which is shorter than 2^64 bytes, but a read may
  -- return fewer bytes than it has room for, `search` returns what the map has for the key, or
  -- nothing, or it returns the bincode error: never another value. It leaves the directory as it
  -- is. Index entries take the same space whatever their offsets, and the codecs and the stream
  -- keep their laws.
  pub search-guarded :
      (path : Bytes) (m : Map Value) (dir : Directory) (key : Bytes)
      → HasTable bincode index_bincode big_endian path m dir
      → FixedInts index_bincode
      → TableFits bincode index_bincode big_endian m
      → (search values indices tokio path key dir ≡ (ok (get key m), dir))
        ⊎ (search values indices tokio path key dir ≡ (err bincode_error, dir))
  unfolding search
  search-guarded path m dir key h fixed fits =
      let size = index_size bincode index_bincode big_endian m in
      let bytes = table_bytes bincode index_bincode big_endian m in
      let head = to_be_bytes size ++ index_block bincode index_bincode big_endian m in
      let guarded =
        Guarded-layout m head (8 + size) bytes
          (omega (
            arith,
            length-append (to_be_bytes size) (index_block bincode index_bincode big_endian m),
            length-to_be_bytes size,
            length-index_block bincode index_bincode big_endian m fixed fits,
          ))
          refl in
      rw (contents_lem path dir h, file_handle_lem path dir h)
        (elim (read_index-guarded m fixed fits) [
          | inl opened ↦ elim (Guarded-find values indices tokio bytes key _ m guarded) [
            | inl found ↦ inl (rw (opened, found) refl)
            | inr short ↦ inr (rw (opened, short) refl)
          ]
          | inr short ↦ inr (rw short refl)
        ])
