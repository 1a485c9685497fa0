-- ===== src/Proto/Machine/Stream/Fields.antt =====
-- The decoder on an argument behind its length, and on the beginning of one.
use kave.Base.{
  ℕ, ◌+◌, ◌<◌, true, false, none, some, [], ◌∷◌, ◌++◌, ◌≡◌, refl, ◌∙◌, sym, ap, arith, length,
  length-append, ltb, leb, ◌==◌, append-nil, append_assoc, inl, inr, ◌⊎◌,
}
use kave.Base.Bytes.{Bytes}
use kave.Base.Decimal.{to_string}
use kave.Base.Decimal.RoundTrip.{
  AllDigits, to_string-AllDigits, parse_usize-to_string, is_utf8-AllDigits,
}
use kave.Base.Words.{u64_mod}
use kave.Proto.Machine.Requests.{field}
use kave.Proto.Machine.Stream.{starved, taken, parsed, take_len, take_bytes}

-- Where the beginning of two sequences ends: inside the first, or not.
pub split :
    (p s a b : Bytes)
    → p ++ s ≡ a ++ b
    → ((q : Bytes) × (p ++ q ≡ a) × (0 < length q)) ⊎ ((q : Bytes) × (p ≡ a ++ q) × (q ++ s ≡ b))
split p s [] b h = inr (p, refl, h)
split [] s (x ∷ a) b h = inl (x ∷ a, refl, omega arith)
split (y ∷ p) s (x ∷ a) b h =
    let heads : y ≡ x = cc h in
    let tails : p ++ s ≡ a ++ b = cc h in
    elim (split p s a b tails) [
      | inl (q, inside, more) ↦ inl (q, cc (heads, inside), more)
      | inr (q, behind, rest) ↦ inr (q, cc (heads, behind), rest)
    ]

AllDigits-prefix : (p q : Bytes) → AllDigits (p ++ q) → AllDigits p
AllDigits-prefix [] q h = tt
AllDigits-prefix (c ∷ p) q h = (h.0, h.1, AllDigits-prefix p q h.2)

take_len-digits :
    (ds tail len_buf : Bytes)
    → AllDigits ds
    → take_len (ds ++ b':' ∷ tail) true len_buf ≡ parsed (len_buf ++ ds) tail
unfolding take_len
take_len-digits [] tail len_buf h = rw (append-nil len_buf) refl
take_len-digits (d ∷ ds) tail len_buf h =
    let no_colon : (d == b':') ≡ false = ground (arith, h.1) in
    rw (no_colon, take_len-digits ds tail (len_buf ++ d ∷ []) h.2, append_assoc len_buf (d ∷ []) ds)
      refl

take_len-unended : (ds len_buf : Bytes) → AllDigits ds → take_len ds true len_buf ≡ starved
unfolding take_len
take_len-unended [] len_buf h = refl
take_len-unended (d ∷ ds) len_buf h =
    let no_colon : (d == b':') ≡ false = ground (arith, h.1) in
    rw (no_colon, take_len-unended ds (len_buf ++ d ∷ []) h.2) refl

parsed-to_string : (n : ℕ) (rest : Bytes) → n < u64_mod → parsed (to_string n) rest ≡ taken n rest
unfolding parsed
parsed-to_string n rest fits =
    rw (is_utf8-AllDigits (to_string n) (to_string-AllDigits n), parse_usize-to_string n fits) refl

-- The length between two colons.
pub take_len-to_string :
    (n : ℕ) (tail : Bytes)
    → n < u64_mod
    → take_len (b':' ∷ (to_string n ++ b':' ∷ tail)) false [] ≡ taken n tail
unfolding take_len
take_len-to_string n tail fits =
    take_len-digits (to_string n) tail [] (to_string-AllDigits n) ∙ parsed-to_string n tail fits

pub take_bytes-append :
    (wanted tail got : Bytes) (n : ℕ)
    → n ≡ length got + length wanted
    → take_bytes (wanted ++ tail) got n ≡ some (got ++ wanted, tail)
unfolding take_bytes
take_bytes-append [] [] got n h =
    let full : leb n (length got) ≡ true = ground arith in rw (full, append-nil got) refl
take_bytes-append [] (c ∷ tail) got n h =
    let full : ltb (length got) n ≡ false = ground arith in rw (full, append-nil got) refl
take_bytes-append (c ∷ wanted) tail got n h =
    let room : ltb (length got) n ≡ true = ground arith in
    let one : length (got ++ c ∷ []) ≡ length got + 1 = length-append got (c ∷ []) in
    rw
      (
        room,
        take_bytes-append wanted tail (got ++ c ∷ []) n (omega arith),
        append_assoc got (c ∷ []) wanted,
      )
      refl

take_bytes-few : (p got : Bytes) (n : ℕ) → length got + length p < n → take_bytes p got n ≡ none
unfolding take_bytes
take_bytes-few [] got n h =
    let short : leb n (length got) ≡ false = ground (arith, h) in rw short refl
take_bytes-few (c ∷ p) got n h =
    let room : ltb (length got) n ≡ true = ground (arith, h) in
    let one : length (got ++ c ∷ []) ≡ length got + 1 = length-append got (c ∷ []) in
    rw (room, take_bytes-few p (got ++ c ∷ []) n (omega arith)) refl

pub take_bytes-short : (p : Bytes) (n : ℕ) → length p < n → take_bytes p [] n ≡ none
take_bytes-short p n h = take_bytes-few p [] n (omega arith)

-- The beginning of an argument behind its length ends in the length, or in the argument.
pub field-begun :
    (k p q : Bytes)
    → length k < u64_mod
    → p ++ q ≡ field k
    → 0 < length q
    → (take_len p false [] ≡ starved)
      ⊎ ((rest : Bytes) × (take_len p false [] ≡ taken (length k) rest) × (length rest < length k))
unfolding take_len
field-begun k [] q fits h more = inl refl
field-begun k (c ∷ p) q fits h more =
    let colon : c ≡ b':' = cc h in
    let behind : p ++ q ≡ to_string (length k) ++ b':' ∷ k = cc h in
    elim (split p q (to_string (length k)) (b':' ∷ k) behind) [
      | inl (ds, inside, _) ↦
          let digits : AllDigits (p ++ ds) = rw inside (to_string-AllDigits (length k)) in
          inl (rw (colon, take_len-unended p [] (AllDigits-prefix p ds digits)) refl)
      | inr ([], all, _) ↦
          let all' : p ≡ to_string (length k) = all ∙ append-nil (to_string (length k)) in
          inl (
            rw
              (
                colon,
                all',
                take_len-unended (to_string (length k)) [] (to_string-AllDigits (length k)),
              )
              refl)
      | inr (d ∷ rest, all, end) ↦
          let second : d ≡ b':' = cc end in
          let left : rest ++ q ≡ k = cc end in
          let lengths : length rest + length q ≡ length k =
            sym (length-append rest q) ∙ ap length left in
          inr (rest, rw (colon, all, second) (take_len-to_string (length k) rest fits), omega arith)
    ]
