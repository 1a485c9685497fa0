-- ===== src/Base/Text.antt =====
-- `str::from_utf8` as a test, and `str::parse::<usize>`.
use kave.Base.{
  ℕ, ◌+◌, ◌-◌, ◌*◌, Bool, true, false, ◌&&◌, Option, none, some, List, [], ◌∷◌, ltb, leb, ◌==◌,
  if◌then◌else◌,
}
use kave.Base.Bytes.{Bytes}
use kave.Base.Words.{u64_mod}

abbrev pub within : ℕ → ℕ → ℕ → Bool
within lo hi c = leb lo c && leb c hi

-- The ranges of the bytes that follow a first byte, or `none` if none may begin with it.
unfoldable pub followers : ℕ → Option (List (ℕ × ℕ))
followers c =
    if ltb c 128
    then some []
    else if within 194 223 c
    then some ((128, 191) ∷ [])
    else if c == 224
    then some ((160, 191) ∷ (128, 191) ∷ [])
    else if c == 237
    then some ((128, 159) ∷ (128, 191) ∷ [])
    else if within 225 239 c
    then some ((128, 191) ∷ (128, 191) ∷ [])
    else if c == 240
    then some ((144, 191) ∷ (128, 191) ∷ (128, 191) ∷ [])
    else if within 241 243 c
    then some ((128, 191) ∷ (128, 191) ∷ (128, 191) ∷ [])
    else if c == 244
    then some ((128, 143) ∷ (128, 191) ∷ (128, 191) ∷ [])
    else none

unfoldable pub utf8_from : List (ℕ × ℕ) → Bytes → Bool
utf8_from [] [] = true
utf8_from (_ ∷ _) [] = false
utf8_from ((lo, hi) ∷ ranges) (c ∷ cs) = let rest = utf8_from ranges cs in within lo hi c && rest
utf8_from [] (c ∷ cs) = elim (followers c) [ none ↦ false | some ranges ↦ utf8_from ranges cs ]

unfoldable pub is_utf8 : Bytes → Bool
unfolding utf8_from followers
is_utf8 = utf8_from []

-- The digits behind a sign; an overflow is an error.
unfoldable pub parse_digits : ℕ → Bytes → Option ℕ
parse_digits n [] = some n
parse_digits n (c ∷ cs) =
    let next = n * 10 + (c - 48) in
    let rest = parse_digits next cs in if within 48 57 c && ltb next u64_mod then rest else none

unfoldable pub parse_unsigned : Bytes → Option ℕ
unfolding parse_digits
parse_unsigned [] = none
parse_unsigned (c ∷ cs) = parse_digits 0 (c ∷ cs)

unfoldable pub parse_usize : Bytes → Option ℕ
unfolding parse_unsigned
parse_usize [] = none
parse_usize (c ∷ cs) = if c == b'+' then parse_unsigned cs else parse_unsigned (c ∷ cs)
