-- ===== src/Proto/Machine/Stream/Whole.antt =====
-- `read` of proto.rs on bytes that come in any number of reads.
use kave.Base.{
  ℕ, zero, suc, ◌+◌, ◌*◌, ◌≤◌, true, false, Option, none, some, List, [], ◌∷◌, ◌++◌, ◌≡◌, refl, ◌∙◌,
  sym, ap, arith, length, take, drop, ltb, Bool-cases, inl, inr, take-append_le, if◌then◌else◌,
}
use kave.Base.Bytes.{Bytes, beq}
use kave.Error.{Result, err, pending, e, unknown_operation}
use kave.Proto.{
  ProtoOp, Op, op_get, op_set, op_echo, State, start, read_op, read_key_len, read_key, read_echo,
  read_value_len, read_value, done, ReadEvent, received, Reader, Proto, defaults,
}
use kave.Proto.Machine.{
  Round, again, return, handle, fill, then_handle, round, run, left_of, fuel_for, read, on_start,
  on_read_op, on_tag, get_tag, set_tag, echo_tag,
}
use kave.Proto.Machine.Requests.{tagged, run-again}
use kave.Proto.Machine.Termination.{read-returns}
use kave.Proto.Machine.Stream.{bare, decode, decode_key_len, or_waits}
use kave.Proto.Machine.Stream.Steps.{
  chunks, joined, Behind, Steady, promise, Agrees, value-Agrees, key-Agrees, echo-Agrees,
}
use kave.Proto.Machine.Stream.Lens.{value_len-Agrees, key_len-Agrees, done-Agrees}

handle-Agrees :
    (st : State) (r : Reader) (cs : List Bytes) (steady : Steady r cs)
    → r.needs_read ≡ false
    → r.state ≡ st
    → Behind st
    → Agrees
        (or_waits (decode st r.key_len_buf (bare r) (drop r.ptr r.buf ++ joined cs)))
        cs
        (handle st r)
unfolding handle decode
handle-Agrees start r cs steady idle at b = absurd b
handle-Agrees read_op r cs steady idle at b = absurd b
handle-Agrees read_key_len r cs steady idle at b = key_len-Agrees r cs steady idle at
handle-Agrees read_key r cs steady idle at b = key-Agrees r cs steady idle at
handle-Agrees read_echo r cs steady idle at b = echo-Agrees r cs steady idle at
handle-Agrees read_value_len r cs steady idle at b = value_len-Agrees r cs steady idle at
handle-Agrees read_value r cs steady idle at b = value-Agrees r cs steady idle at
handle-Agrees done r cs steady idle at b = done-Agrees r cs steady idle

-- What follows a round that agrees.
after_round :
    (n : ℕ) (v y : Result ProtoOp) (cs : List Bytes) (r' : Reader) (x : Round)
    → ((r : Reader) → Steady r cs → run n r ≡ some (y, r') → y ≡ promise r cs)
    → Agrees v cs x
    → (elim x [ again r1 ↦ run n r1 | return z r1 ↦ some (z, r1) ]) ≡ some (y, r')
    → y ≡ v
after_round n v y cs r' (again r1) more a h = more r1 a.0 h ∙ a.1
after_round n v y cs r' (return z r1) more a h = cc (a, h)

-- The rest of the loop, behind a round.
abbrev loop_on : ℕ → Round → Option (Result ProtoOp × Reader)
loop_on n x = elim x [ again r1 ↦ run n r1 | return z r1 ↦ some (z, r1) ]

run-loop_on : (n : ℕ) (r : Reader) → run (suc n) r ≡ loop_on n (round r)
unfolding run
run-loop_on n r = refl

round-idle : (r : Reader) → r.needs_read ≡ false → round r ≡ handle r.state r
unfolding round
round-idle r h = rw (h, round)

round-reads : (r : Reader) → r.needs_read ≡ true → round r ≡ then_handle (fill r.input r)
unfolding round
round-reads r h = rw (h, round)

-- The reader behind a read.
abbrev filled : Reader → Bytes → List Bytes → Reader
filled r c cs = record r { buf = c; residual = []; ptr = 0; needs_read = false; input = chunks cs }

fill-chunk :
    (r : Reader) (c : Bytes) (cs : List Bytes)
    → r.residual ≡ []
    → then_handle (fill (chunks (c ∷ cs)) r) ≡ handle r.state (filled r c cs)
unfolding fill then_handle
fill-chunk r c cs h = rw h refl

-- Behind the name of the operation, the call comes to what the decoder says of the bytes to come.
run-promise :
    (n : ℕ) (r : Reader) (cs : List Bytes) (y : Result ProtoOp) (r' : Reader)
    → Steady r cs
    → run n r ≡ some (y, r')
    → y ≡ promise r cs
run-promise zero r cs y r' steady h = unfold run in cc h
run-promise (suc n) r cs y r' steady h = elim (Bool-cases r.needs_read) [
  | inr idle ↦
      let v = or_waits (decode r.state r.key_len_buf (bare r) (drop r.ptr r.buf ++ joined cs)) in
      let here : y ≡ v =
        after_round n v y cs r' (handle r.state r) (λ r1 s. run-promise n r1 cs y r' s)
          (handle-Agrees r.state r cs steady idle refl steady.behind)
          (sym (ap (loop_on n) (round-idle r idle)) ∙ sym (run-loop_on n r) ∙ h) in
      rw idle here
  | inl reading ↦ rw reading (reads (λ r1 ds. run-promise n r1 ds y r') cs steady reading)
]
  where
    reads :
        ((r1 : Reader) (ds : List Bytes)
          → Steady r1 ds
          → run n r1 ≡ some (y, r')
          → y ≡ promise r1 ds)
        → (cs : List Bytes) → Steady r cs
        → r.needs_read ≡ true
        → y ≡ or_waits (decode r.state r.key_len_buf (bare r) (joined cs))
    reads more [] s reading =
        let waits : round r ≡ return pending (record r { buf = [] }) =
          round-reads r reading ∙ rw s.input (unfold fill then_handle in refl) in
        let wait : Result ProtoOp × Reader = (pending, record r { buf = [] }) in
        let came : some wait ≡ some (y, r') =
          sym (ap (loop_on n) waits) ∙ sym (run-loop_on n r) ∙ h in
        rw (s.hungry reading) (unfold or_waits in cc came)
    reads more (c ∷ cs) s reading =
        let next = filled r c cs in
        let v = or_waits (decode r.state r.key_len_buf (bare r) (c ++ joined cs)) in
        let steady' : Steady next cs = record {
          input = refl;
          clear = refl;
          behind = s.behind;
          hungry = λ t. cc t;
        } in
        let came : round r ≡ handle r.state next =
          round-reads r reading
          ∙ ap (λ (i : List ReadEvent). then_handle (fill i r)) s.input
          ∙ fill-chunk r c cs s.clear in
        after_round n v y cs r' (handle r.state next) (λ r1. more r1 cs)
          (handle-Agrees r.state next cs steady' refl refl s.behind)
          (sym (ap (loop_on n) came) ∙ sym (run-loop_on n r) ∙ h)

-- From a fresh `Proto`, the first two rounds on a read of four bytes or more.
abbrev opening_on : Bytes → List Bytes → Reader
opening_on c cs = record (tagged op_get c 0 (chunks cs) []) { state = read_op }

opened :
    (n : ℕ) (before c : Bytes) (cs : List Bytes)
    → 4 ≤ length c
    → run (suc (suc n)) (defaults (record { buf = before; fresh = true }) (received c ∷ chunks cs))
      ≡ loop_on n (on_tag (take 4 c) (opening_on c cs))
unfolding round handle on_read_op
opened n before c cs long =
    let enough : ltb (length c) 4 ≡ false = ground (arith, long) in
    let first = defaults (record { buf = before; fresh = true }) (received c ∷ chunks cs) in
    let started : round first ≡ again (opening_on c cs) =
      unfold round fill then_handle handle on_start defaults in refl in
    let matched : round (opening_on c cs) ≡ on_tag (take 4 c) (opening_on c cs) = rw enough refl in
    run-again (suc n) first (opening_on c cs) started
    ∙ run-loop_on n (opening_on c cs)
    ∙ ap (loop_on n) matched

-- What the decoder says that a call on these bytes comes to, four of which are the operation's name.
unfoldable pub spoken : Bytes → Result ProtoOp
spoken bytes =
    let tag = take 4 bytes in
    if beq tag get_tag
    then or_waits (decode_key_len [] (bare (tagged op_get [] 0 [] [])) (drop 3 bytes))
    else if beq tag set_tag
    then or_waits (decode_key_len [] (bare (tagged op_set [] 0 [] [])) (drop 3 bytes))
    else if beq tag echo_tag
    then or_waits (decode_key_len [] (bare (tagged op_echo [] 0 [] [])) (drop 4 bytes))
    else err (e (unknown_operation tag))

pub drop-append_le : (n : ℕ) (xs ys : Bytes) → n ≤ length xs → drop n (xs ++ ys) ≡ drop n xs ++ ys
drop-append_le zero xs ys h = refl
drop-append_le (suc n) [] ys h = absurd (omega arith)
drop-append_le (suc n) (x ∷ xs) ys h = drop-append_le n xs ys (omega arith)

tagged-Steady :
    (op : Op) (c : Bytes) (ptr : ℕ) (cs : List Bytes) → Steady (tagged op c ptr (chunks cs) []) cs
tagged-Steady op c ptr cs = record { input = refl; clear = refl; behind = tt; hungry = λ t. cc t }

tag-Agrees :
    (c : Bytes) (cs : List Bytes)
    → 4 ≤ length c
    → Agrees (spoken (c ++ joined cs)) cs (on_tag (take 4 c) (opening_on c cs))
unfolding on_tag spoken decode
tag-Agrees c cs long =
    rw
      (
        take-append_le 4 c (joined cs) long,
        drop-append_le 3 c (joined cs) (omega arith),
        drop-append_le 4 c (joined cs) long,
      )
      (elim (Bool-cases (beq (take 4 c) get_tag)) [
        | inl is_get ↦ rw is_get (tagged-Steady op_get c 3 cs, refl)
        | inr no_get ↦ elim (Bool-cases (beq (take 4 c) set_tag)) [
          | inl is_set ↦ rw (no_get, is_set) (tagged-Steady op_set c 3 cs, refl)
          | inr no_set ↦ elim (Bool-cases (beq (take 4 c) echo_tag)) [
            | inl yes_echo ↦ rw (no_get, no_set, yes_echo) (tagged-Steady op_echo c 4 cs, refl)
            | inr no_echo ↦ rw (no_get, no_set, no_echo) refl
          ]
        ]
      ])

-- A call on a fresh `Proto` comes to what the decoder says of all the bytes that the reads bring.
pub read-spoken :
    (before c : Bytes) (cs : List Bytes)
    → 4 ≤ length c
    → (left : Proto) × (rest : List ReadEvent) × (read
          (record { buf = before; fresh = true })
          (received c ∷ chunks cs)
        ≡ some (spoken (c ++ joined cs), left, rest))
unfolding read left_of
read-spoken before c cs long =
    let (x, left, rest, came, or_all) = read-returns proto input in
    (left, rest, came ∙ ap (λ (y : Result ProtoOp). some (y, left, rest)) (says x left rest came))
  where
    proto : Proto
    proto = record { buf = before; fresh = true }

    input : List ReadEvent
    input = received c ∷ chunks cs

    rounds : ℕ
    rounds = 2 * length (chunks cs) + 10

    looked :
        (o : Option (Result ProtoOp × Reader)) (x : Result ProtoOp) (left : Proto)
        (rest : List ReadEvent)
        → run (suc (suc rounds)) (defaults proto input) ≡ o
        → left_of o ≡ some (x, left, rest)
        → x ≡ spoken (c ++ joined cs)
    looked none x left rest at h = cc h
    looked (some (y, r')) x left rest at h =
        let same : y ≡ spoken (c ++ joined cs) =
          after_round rounds _ y cs r' (on_tag (take 4 c) (opening_on c cs))
            (λ r1. run-promise rounds r1 cs y r') (tag-Agrees c cs long)
            (sym (opened rounds before c cs long) ∙ at) in
        cc (h, same)

    says :
        (x : Result ProtoOp) (left : Proto) (rest : List ReadEvent)
        → read proto input ≡ some (x, left, rest)
        → x ≡ spoken (c ++ joined cs)
    says x left rest h =
        let fuel : fuel_for input ≡ suc (suc rounds) = omega arith in
        looked (run (suc (suc rounds)) (defaults proto input)) x left rest refl (rw fuel at h)
