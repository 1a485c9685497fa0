-- ===== src/Tests/Codecs.antt =====
-- A concrete serialiser for each type that the storage writes. A value is a list of fields; a field
-- is written with every byte one higher and a zero behind it, a value behind its length.
use kave.Base.{
  true, false, ℕ, zero, suc, ◌<◌, List, [], ◌∷◌, ◌++◌, ◌≡◌, refl, ◌∙◌, ap, arith, length, take, ltb,
  if◌then◌else◌, length-append, take-append_length,
}
use kave.Base.Bytes.{Bytes}
use kave.CommitLog.{CommitLogLine, begin_tx, end_tx}
use kave.Error.{Result, ok, err, bincode_error}
use kave.External.{Codec, IsBincode}
use kave.SsTable.{Index, shift}
use kave.SsTable.RoundTrip.{FixedInts}
use kave.Store.{Operation, set, delete}
use kave.Value.{Value, present, tombstone}

unfoldable pub escape : Bytes → Bytes
escape [] = zero ∷ []
escape (b ∷ bs) = suc b ∷ escape bs

unfoldable pub join : List Bytes → Bytes
unfolding escape
join [] = []
join (f ∷ fs) = escape f ++ join fs

grow : ℕ → List Bytes → List Bytes
grow b [] = (b ∷ []) ∷ []
grow b (f ∷ fs) = (b ∷ f) ∷ fs

unfoldable pub split : Bytes → List Bytes
unfolding grow
split [] = []
split (zero ∷ bs) = [] ∷ split bs
split (suc b ∷ bs) = grow b (split bs)

split-escape : (f rest : Bytes) → split (escape f ++ rest) ≡ f ∷ split rest
unfolding split escape grow
split-escape [] rest = refl
split-escape (b ∷ f) rest = rw (split-escape f rest)

split-join : (fs : List Bytes) → split (join fs) ≡ fs
unfolding split join
split-join [] = refl
split-join (f ∷ fs) = split-escape f (join fs) ∙ ap (◌∷◌ f) (split-join fs)

-- A value behind the length of its fields.
unfoldable pub encode : {A : Type 0} → (A → List Bytes) → A → Bytes
unfolding join
encode to a = length (join (to a)) ∷ join (to a)

unfoldable pub decode : {A : Type 0} → (List Bytes → A) → Bytes → Result A
unfolding split
decode from [] = err bincode_error
decode from (n ∷ bs) =
    if ltb (length bs) n then err bincode_error else ok (from (split (take n bs)))

unfoldable pub codec : {A : Type 0} → (A → List Bytes) → (List Bytes → A) → Codec A
codec to from = record {
  serialize = λ a. ok (encode to a);
  serialized_size = λ a. ok (length (encode to a));
  deserialize = decode from;
}

take-length_lt : (n : ℕ) (bs : Bytes) → n < length bs → length (take n bs) ≡ n
take-length_lt zero bs h = refl
take-length_lt (suc n) [] h = absurd (omega arith)
take-length_lt (suc n) (b ∷ bs) h = omega (arith, take-length_lt n bs (omega arith))

module _ {A : Type 0} (to : A → List Bytes) (from : List Bytes → A) where
  pub decode-encode :
      (a : A) (rest : Bytes) → from (to a) ≡ a → decode from (encode to a ++ rest) ≡ ok a
  unfolding encode decode
  decode-encode a rest h =
      let long : ltb (length (join (to a) ++ rest)) (length (join (to a))) ≡ false =
        ground (arith, length-append (join (to a)) rest) in
      rw (long, take-append_length (join (to a)) rest, split-join (to a), h)

  pub decode-cut :
      (a : A) (n : ℕ)
      → n < length (encode to a)
      → decode from (take n (encode to a)) ≡ err bincode_error
  unfolding encode decode
  decode-cut a zero h = refl
  decode-cut a (suc n) h =
      let short : ltb (length (take n (join (to a)))) (length (join (to a))) ≡ true =
        ground (arith, take-length_lt n (join (to a))) in
      rw short

  unfoldable pub codec-IsBincode : ((a : A) → from (to a) ≡ a) → IsBincode (codec to from)
  unfolding codec
  codec-IsBincode h = record {
    encoding = encode to;
    serialize_ok = λ a. refl;
    serialized_size_ok = λ a. refl;
    deserialize_ok = λ a rest. decode-encode a rest (h a);
    deserialize_cut = decode-cut;
  }

unfoldable pub value_to : Value → List Bytes
value_to (present bytes) = bytes ∷ []
value_to tombstone = []

unfoldable pub value_from : List Bytes → Value
value_from [] = tombstone
value_from (bytes ∷ _) = present bytes

unfoldable pub value_codec : Codec Value
unfolding value_to value_from
value_codec = codec value_to value_from

pub value_from-value_to : (v : Value) → value_from (value_to v) ≡ v
unfolding value_from value_to
value_from-value_to (present bytes) = refl
value_from-value_to tombstone = refl

unfoldable pub value_codec-IsBincode : IsBincode value_codec
unfolding value_codec
value_codec-IsBincode = codec-IsBincode value_to value_from value_from-value_to

unfoldable pub operations_to : List Operation → List Bytes
operations_to [] = []
operations_to (set k v ∷ os) = (0 ∷ k) ∷ v ∷ operations_to os
operations_to (delete k ∷ os) = (1 ∷ k) ∷ operations_to os

unfoldable pub operations_from : List Bytes → List Operation
operations_from ((zero ∷ k) ∷ v ∷ fs) = set k v ∷ operations_from fs
operations_from ((suc _ ∷ k) ∷ fs) = delete k ∷ operations_from fs
operations_from _ = []

operations_from-operations_to : (os : List Operation) → operations_from (operations_to os) ≡ os
unfolding operations_from operations_to
operations_from-operations_to [] = refl
operations_from-operations_to (set k v ∷ os) = ap (◌∷◌ (set k v)) (operations_from-operations_to os)
operations_from-operations_to (delete k ∷ os) =
    ap (◌∷◌ (delete k)) (operations_from-operations_to os)

unfoldable pub line_to : CommitLogLine → List Bytes
unfolding operations_to
line_to (begin_tx tx) = (0 ∷ tx.id ∷ []) ∷ operations_to tx.operations
line_to (end_tx id) = (1 ∷ id ∷ []) ∷ []

unfoldable pub line_from : List Bytes → CommitLogLine
unfolding operations_from
line_from ((zero ∷ id ∷ []) ∷ fs) = begin_tx (record { id = id; operations = operations_from fs })
line_from ((suc _ ∷ id ∷ []) ∷ fs) = end_tx id
line_from _ = end_tx 0

pub line_from-line_to : (l : CommitLogLine) → line_from (line_to l) ≡ l
unfolding line_from line_to
line_from-line_to (begin_tx tx) =
    ap (λ (os : List Operation). begin_tx (record { id = tx.id; operations = os }))
      (operations_from-operations_to tx.operations)
line_from-line_to (end_tx id) = refl

unfoldable pub line_codec : Codec CommitLogLine
unfolding line_to line_from
line_codec = codec line_to line_from

unfoldable pub line_codec-IsBincode : IsBincode line_codec
unfolding line_codec
line_codec-IsBincode = codec-IsBincode line_to line_from line_from-line_to

unfoldable pub index_to : Index → List Bytes
index_to [] = []
index_to ((k, entry) ∷ index) = k ∷ (entry.offset ∷ entry.size ∷ []) ∷ index_to index

unfoldable pub index_from : List Bytes → Index
index_from (k ∷ (offset ∷ size ∷ []) ∷ fs) =
    (k, record { offset = offset; size = size }) ∷ index_from fs
index_from _ = []

pub index_from-index_to : (index : Index) → index_from (index_to index) ≡ index
unfolding index_from index_to
index_from-index_to [] = refl
index_from-index_to ((k, entry) ∷ index) = ap (◌∷◌ (k, entry)) (index_from-index_to index)

unfoldable pub index_codec : Codec Index
unfolding index_to index_from
index_codec = codec index_to index_from

unfoldable pub index_codec-IsBincode : IsBincode index_codec
unfolding index_codec
index_codec-IsBincode = codec-IsBincode index_to index_from index_from-index_to

length_same : (a b c : Bytes) → length b ≡ length c → length (a ++ b) ≡ length (a ++ c)
length_same a b c h = omega (arith, length-append a b, length-append a c)

join-shift :
    (d : ℕ) (index : Index)
    → length (join (index_to (shift d index))) ≡ length (join (index_to index))
unfolding join index_to shift escape
join-shift d [] = refl
join-shift d ((k, entry) ∷ index) =
    length_same (escape k) _ _ (ap (λ (n : ℕ). suc (suc (suc n))) (join-shift d index))

pub index_codec-FixedInts : FixedInts index_codec-IsBincode
unfolding index_codec-IsBincode codec-IsBincode encode
index_codec-FixedInts d index = ap suc (join-shift d index)
