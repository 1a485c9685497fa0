-- ===== src/Tests/Connections.antt =====
-- The theorems on requests and connections, on small requests and a store in memory.
use kave.Base.{true, ℕ, ◌<◌, ◌≡◌, List, [], ◌∷◌, ◌++◌, none, some, refl, arith, length, inr}
use kave.Base.Bytes.{Bytes}
use kave.Base.Text.{is_utf8, utf8_from}
use kave.Error.{Result, ok, err, e, short_operation, timeout_error}
use kave.Proto
use kave.Proto.{ProtoOp, get, set, echo, ReadEvent, received, eof}
use kave.Proto.Machine.{read}
use kave.Proto.Machine.RoundTrip.{request, IsRequest, used, read-request}
use kave.Proto.Replies.{write_set_result}
use kave.Server.Connection.{Connection, finished, continued, accepted, round, rounds}
use kave.Server.Connection.Closing.{closing-fails}
use kave.Server.Connection.Requests.{serve-requests}
use kave.Server.Connection.Rounds.{Handled}
use kave.Server.Connection.Spec.{found_reply, answers, effects, reads_of, AreRequests}
use kave.Server.Connection.Pipelines.{copies, holding, pipelined-repeats, set-replies}
use kave.Store.{Uuid, Store}
use kave.Store.Memory.{MemoryStore, memory_store}
use kave.Store.Memory.Laws.{MemoryShows, memory-IsStore}
use kave.Tests.World.{key_a, key_b}

abbrev pub words : Bytes
words = b'h' ∷ b'i' ∷ []

abbrev no_data : MemoryStore
no_data = record { data_map = [] }

no_data-MemoryShows : MemoryShows no_data (λ k. none)
unfolding kave.Base.Map.get
no_data-MemoryShows = record { sorted = tt; holds = λ k. refl }

abbrev pub draws : ℕ → Uuid
draws n = n

abbrev pub open_peer : ℕ → Result (Unit {0})
open_peer n = ok tt

key_a-text : is_utf8 key_a ≡ true
unfolding is_utf8 utf8_from
key_a-text = refl

pub set_a-IsRequest : IsRequest (set key_a words)
set_a-IsRequest = (key_a-text, ground arith, ground arith)

get_a-IsRequest : IsRequest (get key_a)
get_a-IsRequest = (key_a-text, ground arith)

echo-IsRequest : IsRequest (echo words)
echo-IsRequest = ground arith

-- A set, a get of the same key and an echo.
abbrev pub three_requests : List ProtoOp
three_requests = set key_a words ∷ get key_a ∷ echo words ∷ []

pub three_requests-AreRequests : AreRequests three_requests
three_requests-AreRequests = (
  set_a-IsRequest,
  ((refl, tt), (refl, (refl, tt))),
  (get_a-IsRequest, (refl, tt), (echo-IsRequest, (refl, (refl, tt)), tt)),
)

serve-requests_example :
    Handled memory_store draws open_peer
      (λ n. MemoryShows)
      3
      (accepted no_data (reads_of three_requests ++ eof ∷ []))
      (answers three_requests (λ k. none))
      (effects three_requests (λ k. none))
      (eof ∷ [])
serve-requests_example =
    serve-requests memory_store MemoryShows draws open_peer memory-IsStore.gets
      memory-IsStore.transacts (λ n. refl) three_requests (eof ∷ []) (λ k. none) no_data
      three_requests-AreRequests no_data-MemoryShows

closing-fails_example :
    (last : Connection MemoryStore) × (rounds memory_store draws open_peer 4
        (accepted no_data (reads_of three_requests ++ received [] ∷ []))
      ≡ finished (err (e (short_operation []))) last)
    × (last.output ≡ answers three_requests (λ k. none))
    × MemoryShows last.store (effects three_requests (λ k. none))
closing-fails_example =
    closing-fails memory_store MemoryShows draws open_peer memory-IsStore.gets
      memory-IsStore.transacts (λ n. refl) three_requests [] (λ k. none) no_data
      three_requests-AreRequests no_data-MemoryShows

read-request_example :
    read Proto.new (received (request (set key_a words) ++ []) ∷ eof ∷ [])
    ≡ some (ok (set key_a words), used (request (set key_a words) ++ []), eof ∷ [])
read-request_example =
    unfold Proto.new in read-request (set key_a words) [] [] (eof ∷ []) set_a-IsRequest

-- `GET:1:a` and `GET:1:b`, with their newlines.
abbrev two_gets : Bytes
two_gets = request (get key_a) ++ (request (get key_b) ++ [])

pipelined-repeats_example :
    rounds memory_store draws open_peer 4 (accepted no_data (received two_gets ∷ eof ∷ []))
    ≡ continued (
        holding memory_store draws open_peer two_gets
          (eof ∷ [])
          no_data
          (copies 4 (found_reply none))
          4)
pipelined-repeats_example =
    pipelined-repeats memory_store draws open_peer key_a key_b [] none (eof ∷ []) no_data 3
      (λ n. refl) get_a-IsRequest (refl, tt)
      (memory-IsStore.gets.get_ok key_a no_data (λ k. none) no_data-MemoryShows)

-- A store that keeps nothing, and whose transactions fail.
abbrev failing : Store (Unit {0})
failing = record {
  get = λ k s. (ok none, s);
  scan = λ from to s. (ok [], s);
  transact = λ tx s. (err timeout_error, s);
}

set-replies_example :
    round failing draws open_peer
      (accepted tt (received (request (set key_a words) ++ []) ∷ eof ∷ []))
    ≡ continued (
        holding failing draws open_peer
          (request (set key_a words) ++ [])
          (eof ∷ [])
          tt
          (write_set_result words)
          1)
set-replies_example =
    set-replies failing draws open_peer key_a words [] (eof ∷ []) tt tt (err timeout_error)
      (λ n. refl) set_a-IsRequest refl (inr (timeout_error, refl))
