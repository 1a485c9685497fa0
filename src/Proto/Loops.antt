-- ===== src/Proto/Loops.antt =====
-- The inner loops of `read`, each over the rest of the buffer from `ptr` on.
pub mod Laws
use kave.Base.{
  ℕ, ◌+◌, Bool, true, false, Option, none, some, [], ◌∷◌, ◌++◌, length, ltb, ◌==◌, if◌then◌else◌,
}
use kave.Base.Bytes.{Bytes}
use kave.Base.Text.{is_utf8, parse_usize}
use kave.Error.{Error, e, expected_colon, invalid_utf8, parse_int_error}

-- `State::Start` on a used `Proto`: the place behind the first newline.
unfoldable pub skip_line : Bytes → ℕ → Option ℕ
skip_line [] ptr = none
skip_line (c ∷ cs) ptr = if c == b'\n' then some (ptr + 1) else skip_line cs (ptr + 1)

-- What reading a length comes to: the buffer ends first, a length, or an error.
pub data LenRead : Type 0 where
  more : ℕ → Bool → Bytes → LenRead
  len : ℕ → ℕ → LenRead
  bad : Error → LenRead

-- The length between the colons: `from_utf8`, then `parse::<usize>`.
unfoldable pub parse_len : ℕ → Bytes → LenRead
parse_len ptr len_buf =
    if is_utf8 len_buf
    then elim (parse_usize len_buf) [ none ↦ bad parse_int_error | some n ↦ len ptr n ]
    else bad (e (invalid_utf8 "length"))

-- `State::ReadKeyLen` and `State::ReadValueLen`.
unfoldable pub read_len : Bytes → ℕ → Bool → Bytes → LenRead
unfolding parse_len
read_len [] ptr between len_buf = more ptr between len_buf
read_len (c ∷ cs) ptr false len_buf =
    let rest = read_len cs (ptr + 1) true len_buf in
    if c == b':' then rest else bad (e (expected_colon (c ∷ [])))
read_len (c ∷ cs) ptr true len_buf =
    let rest = read_len cs (ptr + 1) true (len_buf ++ c ∷ []) in
    if c == b':' then parse_len (ptr + 1) len_buf else rest

-- `State::ReadEcho`, `State::ReadKey` and `State::ReadValue`: the place reached, and what was read.
unfoldable pub read_bytes : Bytes → ℕ → Bytes → ℕ → ℕ × Bytes
read_bytes [] ptr got wanted = (ptr, got)
read_bytes (c ∷ cs) ptr got wanted =
    let rest = read_bytes cs (ptr + 1) (got ++ c ∷ []) wanted in
    if ltb (length got) wanted then rest else (ptr, got)
