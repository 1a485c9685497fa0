-- ===== src/Proto/Machine/Stream/Loops.antt =====
-- The inner loops of `read` in proto.rs on a buffer, and the decoder on the buffer with what comes
-- behind it.
use kave.Base.{
  ℕ, ◌+◌, Bool, true, false, Option, some, [], ◌∷◌, ◌++◌, ◌≡◌, refl, ◌∙◌, sym, ap, arith, length,
  drop, drop-add, ltb, leb, ◌==◌, if◌then◌else◌, Bool-cases, inl, inr,
}
use kave.Base.Bytes.{Bytes}
use kave.Proto.Loops.{LenRead, more, len, bad, parse_len, read_len, read_bytes}
use kave.Proto.Machine.Stream.{Taken, taken, refused, parsed, take_len, take_bytes}

drop_next : (n : ℕ) (c : ℕ) (cs buf : Bytes) → drop n buf ≡ c ∷ cs → drop (n + 1) buf ≡ cs
drop_next n c cs buf h = drop-add n 1 buf ∙ ap (drop 1) h

-- What the loop came to, with `later` behind the buffer.
unfoldable pub then_len : Bytes → Bytes → LenRead → Taken
then_len buf later (more p between len_buf) = take_len later between len_buf
then_len buf later (len p n) = taken n (drop p buf ++ later)
then_len buf later (bad x) = refused x

parse_len-parsed :
    (buf later len_buf : Bytes) (p : ℕ)
    → then_len buf later (parse_len p len_buf) ≡ parsed len_buf (drop p buf ++ later)
unfolding then_len parse_len parsed
parse_len-parsed buf later len_buf p = ground arith

pub read_len-take_len :
    (cs buf later : Bytes) (ptr : ℕ) (between : Bool) (len_buf : Bytes)
    → drop ptr buf ≡ cs
    → take_len (cs ++ later) between len_buf ≡ then_len buf later (read_len cs ptr between len_buf)
unfolding read_len take_len then_len
read_len-take_len [] buf later ptr between len_buf h = refl
read_len-take_len (c ∷ cs) buf later ptr false len_buf h =
    ground (arith, read_len-take_len cs buf later (ptr + 1) true len_buf (drop_next ptr c cs buf h))
read_len-take_len (c ∷ cs) buf later ptr true len_buf h =
    let next = drop_next ptr c cs buf h in
    elim (Bool-cases (c == b':')) [
      | inl colon ↦
          rw (colon, parse_len-parsed buf later len_buf (ptr + 1))
            (ap (λ (rest : Bytes). parsed len_buf (rest ++ later)) (sym next))
      | inr digit ↦
          rw digit (read_len-take_len cs buf later (ptr + 1) true (len_buf ++ c ∷ []) next)
    ]

-- What the loop came to, with `later` behind the buffer.
unfoldable pub then_bytes : Bytes → Bytes → ℕ → ℕ × Bytes → Option (Bytes × Bytes)
then_bytes buf later wanted (p, got) =
    if leb wanted (length got) then some (got, drop p buf ++ later) else take_bytes later got wanted

take_bytes-enough :
    (later got : Bytes) (wanted : ℕ)
    → leb wanted (length got) ≡ true
    → take_bytes later got wanted ≡ some (got, later)
unfolding take_bytes
take_bytes-enough [] got wanted h = rw h
take_bytes-enough (c ∷ cs) got wanted h =
    let full : ltb (length got) wanted ≡ false = ground (arith, h) in rw full

pub read_bytes-take_bytes :
    (cs buf later : Bytes) (ptr : ℕ) (got : Bytes) (wanted : ℕ)
    → drop ptr buf ≡ cs
    → take_bytes (cs ++ later) got wanted
      ≡ then_bytes buf later wanted (read_bytes cs ptr got wanted)
unfolding read_bytes take_bytes then_bytes
read_bytes-take_bytes [] buf later ptr got wanted h = elim (Bool-cases (leb wanted (length got))) [
  | inl enough ↦ rw (enough, h) (take_bytes-enough later got wanted enough)
  | inr short ↦ rw short refl
]
read_bytes-take_bytes (c ∷ cs) buf later ptr got wanted h =
    elim (Bool-cases (ltb (length got) wanted)) [
      | inl room ↦ rw room (
          read_bytes-take_bytes cs buf later (ptr + 1) (got ++ c ∷ []) wanted
            (drop_next ptr c cs buf h))
      | inr full ↦
          let enough : leb wanted (length got) ≡ true = ground (arith, full) in
          rw (full, enough, h) refl
    ]
