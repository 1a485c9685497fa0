-- ===== src/Base/Decimal/RoundTrip.antt =====
-- What `to_string` writes, `parse::<usize>` reads.
use kave.Base.{
  ℕ, zero, suc, ◌+◌, ◌-◌, ◌*◌, ◌/◌, ◌%◌, ◌<◌, ◌≤◌, true, false, ◌&&◌, some, [], ◌∷◌, ◌≡◌, ◌≢◌, refl,
  ◌∙◌, arith, ltb, ◌==◌, Bool-cases, inl, inr,
}
use kave.Base.Bytes.{Bytes}
use kave.Base.Decimal.{digits_onto, to_string}
use kave.Base.Text.{
  within, followers, utf8_from, is_utf8, parse_digits, parse_unsigned, parse_usize,
}
use kave.Base.Words.{u64_mod}

-- Every byte is a digit.
abbrev pub AllDigits : Bytes → Type 0
AllDigits [] = Unit
AllDigits (c ∷ cs) = (48 ≤ c) × (c ≤ 57) × AllDigits cs

digits_onto-AllDigits :
    (fuel n : ℕ) (rest : Bytes) → AllDigits rest → AllDigits (digits_onto fuel n rest)
unfolding digits_onto
digits_onto-AllDigits zero n rest h = h
digits_onto-AllDigits (suc fuel) n rest h = elim (Bool-cases (ltb n 10)) [
  | inl small ↦ rw small (omega arith, ground arith, h)
  | inr large ↦
      rw large
        (digits_onto-AllDigits fuel (n / 10) ((48 + n % 10) ∷ rest) (omega arith, omega arith, h))
]

pub to_string-AllDigits : (n : ℕ) → AllDigits (to_string n)
unfolding to_string
to_string-AllDigits n = digits_onto-AllDigits (suc n) n [] tt

parse_digits-cons :
    (n c m : ℕ) (cs : Bytes)
    → c ≤ 9
    → m ≡ n * 10 + c
    → m < u64_mod
    → parse_digits n ((48 + c) ∷ cs) ≡ parse_digits m cs
unfolding parse_digits
parse_digits-cons n c m cs digit next fits =
    let same : n * 10 + (48 + c - 48) ≡ m = omega arith in
    let test : (within 48 57 (48 + c) && ltb m u64_mod) ≡ true = ground arith in rw (same, test)

parse_digits-digits_onto :
    (fuel n : ℕ) (rest : Bytes)
    → n < fuel
    → n < u64_mod
    → parse_digits 0 (digits_onto fuel n rest) ≡ parse_digits n rest
unfolding digits_onto
parse_digits-digits_onto zero n rest enough fits = absurd (omega arith)
parse_digits-digits_onto (suc fuel) n rest enough fits = elim (Bool-cases (ltb n 10)) [
  | inl small ↦ rw small (parse_digits-cons 0 n n rest (ground arith) (omega arith) fits)
  | inr large ↦ rw large (
      parse_digits-digits_onto fuel (n / 10) ((48 + n % 10) ∷ rest) (ground arith) (omega arith)
      ∙ parse_digits-cons (n / 10) (n % 10) n rest (omega arith) (omega arith) fits)
]

-- Digits have no sign in front.
parse_usize-AllDigits : (s : Bytes) → AllDigits s → s ≢ [] → parse_usize s ≡ parse_digits 0 s
unfolding parse_usize parse_unsigned
parse_usize-AllDigits [] h full = absurd (full refl)
parse_usize-AllDigits (c ∷ cs) h full =
    let unsigned : (c == b'+') ≡ false = ground (arith, h.0) in rw unsigned

digits_onto-cons :
    (fuel n x : ℕ) (rest : Bytes)
    → AllDigits (x ∷ rest)
    → (c : ℕ) × (cs : Bytes) × (digits_onto fuel n (x ∷ rest) ≡ c ∷ cs)
unfolding digits_onto
digits_onto-cons zero n x rest h = (x, rest, refl)
digits_onto-cons (suc fuel) n x rest h = elim (Bool-cases (ltb n 10)) [
  | inl small ↦ (48 + n, x ∷ rest, rw small)
  | inr large ↦
      let (c, cs, e) =
        digits_onto-cons fuel (n / 10) (48 + n % 10) (x ∷ rest) (omega arith, omega arith, h) in
      (c, cs, rw large e)
]

not_empty : (n : ℕ) → to_string n ≢ []
unfolding to_string
not_empty n h = elim (Bool-cases (ltb n 10)) [
  | inl small ↦ cc (rw small at h)
  | inr large ↦
      let (c, cs, e) =
        digits_onto-cons n (n / 10) (48 + n % 10) [] (omega arith, omega arith, tt) in
      cc (rw (large, e) at h)
]

pub parse_usize-to_string : (n : ℕ) → n < u64_mod → parse_usize (to_string n) ≡ some n
unfolding to_string
parse_usize-to_string n fits =
    parse_usize-AllDigits (to_string n) (to_string-AllDigits n) (not_empty n)
    ∙ parse_digits-digits_onto (suc n) n [] (omega arith) fits
    ∙ unfold parse_digits in refl

-- Digits are ASCII.
followers-ascii : (c : ℕ) → c < 128 → followers c ≡ some []
unfolding followers
followers-ascii c h = ground arith

utf8_from-AllDigits : (cs : Bytes) → AllDigits cs → utf8_from [] cs ≡ true
unfolding utf8_from
utf8_from-AllDigits [] h = refl
utf8_from-AllDigits (c ∷ cs) h =
    rw (followers-ascii c (omega arith), utf8_from) (utf8_from-AllDigits cs h.2)

pub is_utf8-AllDigits : (cs : Bytes) → AllDigits cs → is_utf8 cs ≡ true
unfolding is_utf8
is_utf8-AllDigits cs h = utf8_from-AllDigits cs h
