-- ===== src/Proto/Machine/Stream/Cuts.antt =====
-- How the bytes of a request are cut into reads, in `read` of proto.rs.
use kave.Base.{
  ◌+◌, ◌*◌, ◌≤◌, ◌<◌, true, Option, none, some, List, [], ◌∷◌, ◌++◌, ◌≡◌, refl, ◌∙◌, sym, ap, arith,
  length, append-nil, ltb, length-append,
}
use kave.Base.Bytes.{Bytes}
use kave.Error.{Result, ok, err, e, short_operation}
use kave.Proto.{ProtoOp, ReadEvent, received, Proto, defaults}
use kave.Proto.Machine.{
  again, return, on_start, on_read_op, handle, fill, then_handle, round, fuel_for, left_of, read,
}
use kave.Proto.Machine.Requests.{run-again, run-return}
use kave.Proto.Machine.RoundTrip.{request, IsRequest, used, read-request, opening, left_of-run_more}
use kave.Proto.Machine.Stream.Steps.{chunks, joined}
use kave.Proto.Machine.Stream.Whole.{spoken, read-spoken}

-- What a call of `read` comes to, without what it leaves.
unfoldable pub came_to : Option (Result ProtoOp × Proto × List ReadEvent) → Option (Result ProtoOp)
came_to none = none
came_to (some (x, left, rest)) = some x

-- A `Proto` on which `read` was not called yet.
abbrev pub unread : Bytes → Proto
unread before = record { buf = before; fresh = true }

pub came_to-spoken :
    (before c : Bytes) (cs : List Bytes)
    → 4 ≤ length c
    → came_to (read (unread before) (received c ∷ chunks cs)) ≡ some (spoken (c ++ joined cs))
unfolding came_to
came_to-spoken before c cs long = let (left, rest, came) = read-spoken before c cs long in rw came

-- A call of `read` on a fresh `Proto` comes to the same request, error or unending wait for two
-- sequences of reads that bring the same bytes in all, where the first read of each brings four
-- bytes or more and no read follows the ones listed.
pub read-recut :
    (before before' c c' : Bytes) (cs cs' : List Bytes)
    → 4 ≤ length c
    → 4 ≤ length c'
    → c ++ joined cs ≡ c' ++ joined cs'
    → came_to (read (unread before) (received c ∷ chunks cs))
      ≡ came_to (read (unread before') (received c' ∷ chunks cs'))
read-recut before before' c c' cs cs' long long' same =
    came_to-spoken before c cs long
    ∙ ap (λ (bytes : Bytes). some (spoken bytes)) same
    ∙ sym (came_to-spoken before' c' cs' long')

-- However the bytes of a request in its documented form, with whatever stands behind it, are cut
-- into reads, the first of four bytes or more, a call of `read` on a fresh `Proto` returns that
-- request, where its key is UTF-8 and its lengths fit.
pub read-cut :
    (op : ProtoOp) (before junk c : Bytes) (cs : List Bytes)
    → IsRequest op
    → 4 ≤ length c
    → c ++ joined cs ≡ request op ++ junk
    → came_to (read (unread before) (received c ∷ chunks cs)) ≡ some (ok op)
unfolding came_to
read-cut op before junk c cs h long same =
    let lengths : length c + length (joined cs) ≡ length (request op ++ junk) =
      sym (length-append c (joined cs)) ∙ ap length same in
    read-recut before before c (request op ++ junk) cs [] long (omega arith)
      (same ∙ sym (append-nil (request op ++ junk)))
    ∙ ap came_to (read-request op before junk [] h)

-- On a fresh `Proto`, a first read of fewer than four bytes ends the call with the error on a short
-- operation, with the later reads left, whatever they bring.
pub read-short :
    (before c : Bytes) (input : List ReadEvent)
    → length c < 4
    → read (unread before) (received c ∷ input) ≡ some (err (e (short_operation c)), used c, input)
unfolding read
read-short before c input short =
    let few : ltb (length c) 4 ≡ true = ground (arith, short) in
    let first = defaults (unread before) (received c ∷ input) in
    let begun : round first ≡ again (opening c 0 input []) =
      unfold round fill then_handle handle on_start defaults in refl in
    let ended : round (opening c 0 input [])
        ≡ return (err (e (short_operation c))) (opening c 0 input []) =
      unfold round handle on_read_op in rw few refl in
    let fuel : fuel_for (received c ∷ input) ≡ 2 + (2 * length input + 10) = omega arith in
    rw fuel (
      left_of-run_more 2 (2 * length input + 10) first _ (
        ap left_of (
          run-again 1 first (opening c 0 input []) begun
          ∙ run-return 0 (opening c 0 input []) (opening c 0 input []) _ ended)
        ∙ (unfold left_of in refl)))
