-- ===== src/Proto/Loops/Laws.antt =====
-- The inner loops of `read` in proto.rs, on a buffer that holds what they look for.
use kave.Base.{
  ℕ, ◌+◌, ◌<◌, true, false, some, [], ◌∷◌, ◌++◌, ◌≡◌, ◌∙◌, ap, arith, length, length-append, ltb,
  ◌==◌, append-nil, append_assoc,
}
use kave.Base.Bytes.{Bytes}
use kave.Base.Decimal.{to_string}
use kave.Base.Decimal.RoundTrip.{
  AllDigits, to_string-AllDigits, parse_usize-to_string, is_utf8-AllDigits,
}
use kave.Base.Words.{u64_mod}
use kave.Proto.Loops.{skip_line, len, parse_len, read_len, read_bytes}

-- The bytes that are wanted, and no more, are taken.
pub read_bytes-append :
    (wanted : Bytes) (tail : Bytes) (ptr : ℕ) (got : Bytes) (n : ℕ)
    → n ≡ length got + length wanted
    → read_bytes (wanted ++ tail) ptr got n ≡ (ptr + length wanted, got ++ wanted)
unfolding read_bytes
read_bytes-append [] [] ptr got n h = rw (append-nil got) (ap (λ (k : ℕ). (k, got)) (omega arith))
read_bytes-append [] (c ∷ tail) ptr got n h =
    let full : ltb (length got) n ≡ false = ground arith in
    rw (full, append-nil got) (ap (λ (k : ℕ). (k, got)) (omega arith))
read_bytes-append (c ∷ wanted) tail ptr got n h =
    let room : ltb (length got) n ≡ true = ground arith in
    let one : length (got ++ c ∷ []) ≡ length got + 1 = length-append got (c ∷ []) in
    rw
      (
        room,
        read_bytes-append wanted tail (ptr + 1) (got ++ c ∷ []) n (omega arith),
        append_assoc got (c ∷ []) wanted,
      )
      (ap (λ (k : ℕ). (k, got ++ c ∷ wanted)) (omega arith))

-- Bytes with no newline.
abbrev pub IsLine : Bytes → Type 0
IsLine [] = Unit
IsLine (c ∷ cs) = ((c == b'\n') ≡ false) × IsLine cs

pub skip_line-append :
    (line tail : Bytes) (ptr : ℕ)
    → IsLine line
    → skip_line (line ++ b'\n' ∷ tail) ptr ≡ some (ptr + length line + 1)
unfolding skip_line
skip_line-append [] tail ptr h = ap (λ (k : ℕ). some k) (omega arith)
skip_line-append (c ∷ line) tail ptr h =
    rw (h.0, skip_line-append line tail (ptr + 1) h.1) (ap (λ (k : ℕ). some k) (omega arith))

parse_len-to_string : (ptr n : ℕ) → n < u64_mod → parse_len ptr (to_string n) ≡ len ptr n
unfolding parse_len
parse_len-to_string ptr n fits =
    rw (is_utf8-AllDigits (to_string n) (to_string-AllDigits n), parse_usize-to_string n fits)

read_len-digits :
    (ds tail : Bytes) (ptr : ℕ) (len_buf : Bytes)
    → AllDigits ds
    → read_len (ds ++ b':' ∷ tail) ptr true len_buf
      ≡ parse_len (ptr + length ds + 1) (len_buf ++ ds)
unfolding read_len
read_len-digits [] tail ptr len_buf h =
    rw (append-nil len_buf) (ap (λ (k : ℕ). parse_len k len_buf) (omega arith))
read_len-digits (d ∷ ds) tail ptr len_buf h =
    let no_colon : (d == b':') ≡ false = ground (arith, h.1) in
    rw
      (
        no_colon,
        read_len-digits ds tail (ptr + 1) (len_buf ++ d ∷ []) h.2,
        append_assoc len_buf (d ∷ []) ds,
      )
      (ap (λ (k : ℕ). parse_len k (len_buf ++ d ∷ ds)) (omega arith))

-- The length between two colons.
pub read_len-to_string :
    (n : ℕ) (tail : Bytes) (ptr : ℕ)
    → n < u64_mod
    → read_len (b':' ∷ (to_string n ++ b':' ∷ tail)) ptr false []
      ≡ len (ptr + length (to_string n) + 2) n
unfolding read_len
read_len-to_string n tail ptr fits =
    read_len-digits (to_string n) tail (ptr + 1) [] (to_string-AllDigits n)
    ∙ parse_len-to_string (ptr + 1 + length (to_string n) + 1) n fits
    ∙ ap (λ (k : ℕ). len k n) (omega arith)
