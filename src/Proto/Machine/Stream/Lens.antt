-- ===== src/Proto/Machine/Stream/Lens.antt =====
-- A round of `read` in proto.rs that reads a length, or that returns, keeps what the decoder says.
use kave.Base.{
  ℕ, Bool, true, false, none, some, List, ◌++◌, ◌≡◌, refl, ap, drop, if◌then◌else◌, Bool-cases, inl,
  inr,
}
use kave.Base.Bytes.{Bytes}
use kave.Base.Text.{is_utf8}
use kave.Error.{ok, err}
use kave.Proto.{
  ProtoOp, Op, op_get, op_set, op_echo, read_key_len, read_key, read_echo, read_value_len, Reader,
}
use kave.Proto.Loops.{LenRead, more, len, bad, read_len}
use kave.Proto.Machine.{
  is_echo, after_key_len, on_read_key_len, after_value_len, on_read_value_len, result_of, on_done,
}
use kave.Proto.Machine.Stream.{
  starved, taken, refused, take_len, bare, plain, settle, decode, decode_value, decode_value_len,
  decode_after_key, decode_key, decode_echo, decode_key_len, or_waits,
}
use kave.Proto.Machine.Stream.Loops.{then_len, read_len-take_len}
use kave.Proto.Machine.Stream.Steps.{joined, Steady, promise, Agrees}

module _ (r : Reader) (cs : List Bytes) (steady : Steady r cs) (idle : r.needs_read ≡ false) where
  pub value_len-Agrees :
      r.state ≡ read_value_len
      → Agrees
          (or_waits (decode_value_len (bare r) (drop r.ptr r.buf ++ joined cs)))
          cs
          (on_read_value_len r)
  unfolding on_read_value_len after_value_len decode_value_len decode_value decode settle then_len
      or_waits take_len
  value_len-Agrees e =
      rw
        (
          decode_value_len,
          read_len-take_len (drop r.ptr r.buf) r.buf (joined cs) r.ptr r.between_colons
              r.value_len_buf refl,
        )
        (go (read_len (drop r.ptr r.buf) r.ptr r.between_colons r.value_len_buf))
    where
      go :
          (x : LenRead)
          → Agrees
              (or_waits (elim (then_len r.buf (joined cs) x) [
                | starved ↦ none
                | taken n rest ↦
                    decode_value (record (bare r) { between_colons = false; value_len = n }) rest
                | refused why ↦ some (err why)
              ]))
              cs
              (after_value_len x r)
      go (more p between len_buf) = (
        record {
          input = steady.input;
          clear = steady.clear;
          behind = steady.behind;
          hungry = λ t. rw e refl;
        },
        rw e refl,
      )
      go (len p n) = (
        record {
          input = steady.input;
          clear = steady.clear;
          behind = tt;
          hungry = λ t. cc (idle, t);
        },
        rw idle refl,
      )
      go (bad why) = refl

  pub key_len-Agrees :
      r.state ≡ read_key_len
      → Agrees
          (or_waits (decode_key_len r.key_len_buf (bare r) (drop r.ptr r.buf ++ joined cs)))
          cs
          (on_read_key_len r)
  unfolding on_read_key_len after_key_len decode_key_len decode_key decode_echo decode_after_key
      decode_value_len decode_value decode settle then_len or_waits take_len
  key_len-Agrees e =
      rw
        (
          decode_key_len,
          read_len-take_len (drop r.ptr r.buf) r.buf (joined cs) r.ptr r.between_colons
              r.key_len_buf refl,
        )
        (go (read_len (drop r.ptr r.buf) r.ptr r.between_colons r.key_len_buf))
    where
      named :
          (b : Bool) (p n : ℕ)
          → let next = record (bare r) { between_colons = false; key_len = n } in
            let rest = drop p r.buf ++ joined cs in
            let r' = record r {
              ptr = p;
              between_colons = false;
              key_len = n;
              state = if b then read_echo else read_key;
            } in
            Steady r' cs
            × (promise r' cs ≡ or_waits (if b then decode_echo next rest else decode_key next rest))
      named true p n = (
        record {
          input = steady.input;
          clear = steady.clear;
          behind = tt;
          hungry = λ t. cc (idle, t);
        },
        rw idle refl,
      )
      named false p n = (
        record {
          input = steady.input;
          clear = steady.clear;
          behind = tt;
          hungry = λ t. cc (idle, t);
        },
        rw idle refl,
      )

      go :
          (x : LenRead)
          → Agrees
              (or_waits (elim (then_len r.buf (joined cs) x) [
                | starved ↦ none
                | taken n rest ↦
                    let next = record (bare r) { between_colons = false; key_len = n } in
                    if is_echo r.op then decode_echo next rest else decode_key next rest
                | refused why ↦ some (err why)
              ]))
              cs
              (after_key_len x r)
      go (more p between len_buf) = (
        record {
          input = steady.input;
          clear = steady.clear;
          behind = steady.behind;
          hungry = λ t. rw e refl;
        },
        rw e refl,
      )
      go (len p n) = named (is_echo r.op) p n
      go (bad why) = refl

  pub done-Agrees : Agrees (or_waits (settle (bare r))) cs (on_done r)
  unfolding on_done settle result_of or_waits
  done-Agrees = elim (Bool-cases (is_utf8 r.key)) [
    | inl text ↦ rw text (ap (λ (o : ProtoOp). ok o) (same r.op))
    | inr not ↦ rw not refl
  ]
    where
      same : (op : Op) → result_of op r ≡ result_of op (plain r)
      same op_get = refl
      same op_set = refl
      same op_echo = refl
