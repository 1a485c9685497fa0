-- ===== src/Proto/Machine/Stream/Steps.antt =====
-- A round of `read` in proto.rs that reads a key, a value or an echo keeps what the decoder says of the
-- bytes that are left of the buffer and of the reads to come.
use kave.Base.{
  ℕ, true, false, none, some, List, [], ◌∷◌, ◌++◌, ◌≡◌, refl, length, drop, leb, if◌then◌else◌,
  Bool-cases, inl, inr,
}
use kave.Base.Bytes.{Bytes}
use kave.Error.{Result}
use kave.Proto.{
  ProtoOp, Op, op_get, op_set, op_echo, State, start, read_op, read_key_len, read_key, read_echo,
  read_value_len, read_value, done, ReadEvent, received, Reader,
}
use kave.Proto.Loops.{read_bytes}
use kave.Proto.Machine.{Round, again, return, on_read_echo, after_key, on_read_key, on_read_value}
use kave.Proto.Machine.Stream.{
  take_bytes, bare, settle, decode, decode_value, decode_value_len, decode_after_key, decode_key,
  decode_echo, or_waits,
}
use kave.Proto.Machine.Stream.Loops.{then_bytes, read_bytes-take_bytes}

-- Reads that bring these bytes.
abbrev pub chunks : List Bytes → List ReadEvent
chunks [] = []
chunks (c ∷ cs) = received c ∷ chunks cs

abbrev pub joined : List Bytes → Bytes
joined [] = []
joined (c ∷ cs) = c ++ joined cs

-- A state behind the name of the operation.
abbrev pub Behind : State → Type 0
Behind start = ⊥
Behind read_op = ⊥
Behind read_key_len = Unit
Behind read_key = Unit
Behind read_echo = Unit
Behind read_value_len = Unit
Behind read_value = Unit
Behind done = Unit

pub record Steady (r : Reader) (cs : List Bytes) : Type 0 where
  pub input : r.input ≡ chunks cs
  pub clear : r.residual ≡ []
  pub behind : Behind r.state
  pub hungry : r.needs_read ≡ true → decode r.state r.key_len_buf (bare r) [] ≡ none

-- What is left to read.
abbrev pub left_in : Reader → List Bytes → Bytes
left_in r cs = if r.needs_read then joined cs else drop r.ptr r.buf ++ joined cs

-- What the decoder says that the call comes to.
abbrev pub promise : Reader → List Bytes → Result ProtoOp
promise r cs = or_waits (decode r.state r.key_len_buf (bare r) (left_in r cs))

-- The round goes on with the same promise, or returns it.
abbrev pub Agrees : Result ProtoOp → List Bytes → Round → Type 0
Agrees x cs (again r) = Steady r cs × (promise r cs ≡ x)
Agrees x cs (return y r) = y ≡ x

module _ (r : Reader) (cs : List Bytes) (steady : Steady r cs) (idle : r.needs_read ≡ false) where
  pub value-Agrees :
      r.state ≡ read_value
      → Agrees
          (or_waits (decode_value (bare r) (drop r.ptr r.buf ++ joined cs)))
          cs
          (on_read_value r)
  unfolding on_read_value decode_value decode then_bytes take_bytes
  value-Agrees e =
      rw
        (
          decode_value,
          read_bytes-take_bytes (drop r.ptr r.buf) r.buf (joined cs) r.ptr r.value r.value_len refl,
        )
        (go (read_bytes (drop r.ptr r.buf) r.ptr r.value r.value_len))
    where
      go :
          (x : ℕ × Bytes)
          → Agrees
              (or_waits (elim (then_bytes r.buf (joined cs) r.value_len x) [
                | none ↦ none
                | some (got, rest) ↦ settle (record (bare r) { value = got })
              ]))
              cs
              (if leb r.value_len (length x.1)
                then again (record r { ptr = x.0; value = x.1; state = done })
                else again (record r { ptr = x.0; value = x.1; needs_read = true }))
      go (p, got) = elim (Bool-cases (leb r.value_len (length got))) [
        | inl enough ↦ rw enough (
          record {
            input = steady.input;
            clear = steady.clear;
            behind = tt;
            hungry = λ t. cc (idle, t);
          },
          refl,
        )
        | inr short ↦ rw short (
          record {
            input = steady.input;
            clear = steady.clear;
            behind = steady.behind;
            hungry = λ t. rw (e, decode_value, take_bytes, short) refl;
          },
          rw e refl,
        )
      ]

  after_key-Agrees :
      (op : Op) (p : ℕ) (got : Bytes)
      → Agrees
          (or_waits
            (decode_after_key op (record (bare r) { key = got }) (drop p r.buf ++ joined cs)))
          cs
          (after_key op (record r { ptr = p; key = got }))
  unfolding after_key decode_after_key decode or_waits
  after_key-Agrees op_get p got = (
    record { input = steady.input; clear = steady.clear; behind = tt; hungry = λ t. cc (idle, t) },
    refl,
  )
  after_key-Agrees op_set p got = (
    record { input = steady.input; clear = steady.clear; behind = tt; hungry = λ t. cc (idle, t) },
    rw idle refl,
  )
  after_key-Agrees op_echo p got = refl

  pub key-Agrees :
      r.state ≡ read_key
      → Agrees (or_waits (decode_key (bare r) (drop r.ptr r.buf ++ joined cs))) cs (on_read_key r)
  unfolding on_read_key decode_key decode decode_after_key decode_value_len decode_value settle
      then_bytes take_bytes
  key-Agrees e =
      rw
        (
          decode_key,
          read_bytes-take_bytes (drop r.ptr r.buf) r.buf (joined cs) r.ptr r.key r.key_len refl,
        )
        (go (read_bytes (drop r.ptr r.buf) r.ptr r.key r.key_len))
    where
      go :
          (x : ℕ × Bytes)
          → Agrees
              (or_waits (elim (then_bytes r.buf (joined cs) r.key_len x) [
                | none ↦ none
                | some (got, rest) ↦ decode_after_key r.op (record (bare r) { key = got }) rest
              ]))
              cs
              (if leb r.key_len (length x.1)
                then after_key r.op (record r { ptr = x.0; key = x.1 })
                else again (record r { ptr = x.0; key = x.1; needs_read = true }))
      go (p, got) = elim (Bool-cases (leb r.key_len (length got))) [
        | inl enough ↦ rw enough (after_key-Agrees r.op p got)
        | inr short ↦ rw short (
          record {
            input = steady.input;
            clear = steady.clear;
            behind = steady.behind;
            hungry = λ t. rw (e, decode_key, take_bytes, short) refl;
          },
          rw e refl,
        )
      ]

  pub echo-Agrees :
      r.state ≡ read_echo
      → Agrees (or_waits (decode_echo (bare r) (drop r.ptr r.buf ++ joined cs))) cs (on_read_echo r)
  unfolding on_read_echo decode_echo decode then_bytes take_bytes
  echo-Agrees e =
      rw
        (
          decode_echo,
          read_bytes-take_bytes (drop r.ptr r.buf) r.buf (joined cs) r.ptr r.echoed r.key_len refl,
        )
        (go (read_bytes (drop r.ptr r.buf) r.ptr r.echoed r.key_len))
    where
      go :
          (x : ℕ × Bytes)
          → Agrees
              (or_waits (elim (then_bytes r.buf (joined cs) r.key_len x) [
                | none ↦ none
                | some (got, rest) ↦ settle (record (bare r) { echoed = got })
              ]))
              cs
              (if leb r.key_len (length x.1)
                then again (record r { ptr = x.0; echoed = x.1; state = done })
                else again (record r { ptr = x.0; echoed = x.1; needs_read = true }))
      go (p, got) = elim (Bool-cases (leb r.key_len (length got))) [
        | inl enough ↦ rw enough (
          record {
            input = steady.input;
            clear = steady.clear;
            behind = tt;
            hungry = λ t. cc (idle, t);
          },
          refl,
        )
        | inr short ↦ rw short (
          record {
            input = steady.input;
            clear = steady.clear;
            behind = steady.behind;
            hungry = λ t. rw (e, decode_echo, take_bytes, short) refl;
          },
          rw e refl,
        )
      ]
