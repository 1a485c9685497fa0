-- ===== src/Proto/Machine/Stream/Ends.antt =====
-- `read` of proto.rs on bytes that end inside a request.
use kave.Base.{
  ℕ, Bool, true, false, if◌then◌else◌, ◌+◌, ◌≤◌, ◌<◌, Option, none, some, List, [], ◌∷◌, ◌++◌, ◌≡◌,
  refl, ◌∙◌, sym, ap, arith, length, length-append, take, drop, append_assoc, take-append_le, inl,
  inr,
}
use kave.Base.Bytes.{Bytes}
use kave.Base.Words.{u64_mod}
use kave.Error.{Result, pending}
use kave.Proto.{
  ProtoOp, Op, get, set, echo, sys_close, cancelled, op_get, op_set, op_echo, received, Reader,
}
use kave.Proto.Machine.{get_tag, set_tag, echo_tag, is_echo, read}
use kave.Proto.Machine.Requests.{field, field-append, tagged}
use kave.Proto.Machine.RoundTrip.{request, IsRequest}
use kave.Proto.Machine.Stream.{
  bare, decode_key_len, decode_key, decode_echo, decode_value_len, decode_value, decode_after_key,
  or_waits,
}
use kave.Proto.Machine.Stream.Cuts.{came_to, unread, came_to-spoken}
use kave.Proto.Machine.Stream.Fields.{
  split, field-begun, take_len-to_string, take_bytes-append, take_bytes-short,
}
use kave.Proto.Machine.Stream.Steps.{chunks, joined}
use kave.Proto.Machine.Stream.Whole.{spoken, drop-append_le}

-- Behind the name of an operation.
abbrev at_op : Op → Reader
at_op op = bare (tagged op [] 0 [] [])

key-starved :
    (op : Op) (k p q : Bytes)
    → length k < u64_mod
    → p ++ q ≡ field k
    → 0 < length q
    → decode_key_len [] (at_op op) p ≡ none
unfolding decode_key_len decode_key decode_echo
key-starved op k p q fits h more = elim (field-begun k p q fits h more) [
  | inl few ↦ rw (decode_key_len, few) refl
  | inr (rest, named, short) ↦
      rw (decode_key_len, named, decode_echo, decode_key, take_bytes-short rest (length k) short)
        (none_of (is_echo op))
]
  where
    waits : Option (Result ProtoOp)
    waits = none

    none_of : (b : Bool) → (if b then waits else waits) ≡ waits
    none_of true = refl
    none_of false = refl

value-starved :
    (k v p q : Bytes)
    → length k < u64_mod
    → length v < u64_mod
    → p ++ q ≡ field v
    → 0 < length q
    → decode_key_len [] (at_op op_set) (field k ++ p) ≡ none
unfolding decode_key_len decode_key decode_after_key decode_value_len decode_value is_echo
value-starved k v p q fits fits' h more =
    rw
      (
        field-append k p,
        decode_key_len,
        take_len-to_string (length k) (k ++ p) fits,
        decode_key,
        take_bytes-append k p [] (length k) (omega arith),
      )
      (elim (field-begun v p q fits' h more) [
        | inl few ↦ rw (decode_value_len, few) refl
        | inr (rest, named, short) ↦
            rw (decode_value_len, named, decode_value, take_bytes-short rest (length v) short) refl
      ])

-- Where a newline and a byte before it are missing at least, the bytes end inside the field.
inside :
    (bytes p s : Bytes)
    → p ++ s ≡ bytes ++ b'\n' ∷ []
    → 2 ≤ length s
    → (q : Bytes) × (p ++ q ≡ bytes) × (0 < length q)
inside bytes p s h more = elim (split p s bytes (b'\n' ∷ []) h) [
  | inl found ↦ found
  | inr (q, _, left) ↦
      let lengths : length q + length s ≡ 1 = sym (length-append q s) ∙ ap length left in
      absurd (omega arith)
]

spoken-cut :
    (op : ProtoOp) (p s : Bytes)
    → IsRequest op
    → 4 ≤ length p
    → 2 ≤ length s
    → p ++ s ≡ request op
    → spoken p ≡ pending
unfolding spoken or_waits kave.Base.Bytes.beq
spoken-cut (get k) p s h long more cut =
    let tag : take 4 p ≡ get_tag = sym (take-append_le 4 p s long) ∙ ap (take 4) cut in
    let left : drop 3 p ++ s ≡ field k ++ b'\n' ∷ [] =
      sym (drop-append_le 3 p s (omega arith)) ∙ ap (drop 3) cut in
    let (q, begun, more') = inside (field k) (drop 3 p) s left more in
    rw (tag, key-starved op_get k (drop 3 p) q h.1 begun more') refl
spoken-cut (set k v) p s h long more cut =
    let tag : take 4 p ≡ set_tag = sym (take-append_le 4 p s long) ∙ ap (take 4) cut in
    let left : drop 3 p ++ s ≡ field k ++ (field v ++ b'\n' ∷ []) =
      sym (drop-append_le 3 p s (omega arith)) ∙ ap (drop 3) cut in
    elim (split (drop 3 p) s (field k) (field v ++ b'\n' ∷ []) left) [
      | inl (q, begun, more') ↦ rw (tag, key-starved op_set k (drop 3 p) q h.1 begun more') refl
      | inr (p', behind, left') ↦
          let (q, begun, more') = inside (field v) p' s left' more in
          rw (tag, behind, value-starved k v p' q h.1 h.2 begun more') refl
    ]
spoken-cut (echo msg) p s h long more cut =
    let tag : take 4 p ≡ echo_tag = sym (take-append_le 4 p s long) ∙ ap (take 4) cut in
    let left : drop 4 p ++ s ≡ field msg ++ b'\n' ∷ [] =
      sym (drop-append_le 4 p s long) ∙ ap (drop 4) cut in
    let (q, begun, more') = inside (field msg) (drop 4 p) s left more in
    rw (tag, key-starved op_echo msg (drop 4 p) q h begun more') refl
spoken-cut sys_close p s h long more cut = absurd h
spoken-cut cancelled p s h long more cut = absurd h

-- Where the reads bring no more than the beginning of a request in its documented form, whose key
-- is UTF-8 and whose lengths fit, four bytes or more in the first read, and at least two of its
-- bytes are missing, a call of `read` on a fresh `Proto` waits when the reads that are listed are
-- over, also behind reads of no bytes.
pub read-cut_off :
    (op : ProtoOp) (before c s : Bytes) (cs : List Bytes)
    → IsRequest op
    → 4 ≤ length c
    → 2 ≤ length s
    → (c ++ joined cs) ++ s ≡ request op
    → came_to (read (unread before) (received c ∷ chunks cs)) ≡ some pending
read-cut_off op before c s cs h long more cut =
    let lengths : length (c ++ joined cs) ≡ length c + length (joined cs) =
      length-append c (joined cs) in
    came_to-spoken before c cs long
    ∙ ap (λ (x : Result ProtoOp). some x)
        (spoken-cut op (c ++ joined cs) s h (omega arith) more cut)
