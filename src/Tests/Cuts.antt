-- ===== src/Tests/Cuts.antt =====
-- The theorems on how a request is cut into reads, on a small set.
use kave.Base.{◌≡◌, List, [], ◌∷◌, ◌++◌, some, refl, arith}
use kave.Base.Bytes.{Bytes}
use kave.Base.Decimal.{to_string}
use kave.Error.{err, ok, e, short_operation, pending}
use kave.Proto.{set, received, eof}
use kave.Proto.Machine.{read}
use kave.Proto.Machine.RoundTrip.{request, used}
use kave.Proto.Machine.Stream.Cuts.{came_to, unread, read-recut, read-cut, read-short}
use kave.Proto.Machine.Stream.Ends.{read-cut_off}
use kave.Proto.Machine.Stream.Steps.{chunks, joined}
use kave.Tests.Connections.{words, set_a-IsRequest}
use kave.Tests.World.{key_a}

-- `SET:1:a:2:hi` and a newline, in three reads: the second ends inside the length of the value's
-- field, the third begins with its colon.
abbrev first_read : Bytes
first_read = b'S' ∷ b'E' ∷ b'T' ∷ b':' ∷ b'1' ∷ []

abbrev later_reads : List Bytes
later_reads = (b':' ∷ b'a' ∷ b':' ∷ b'2' ∷ []) ∷ (b':' ∷ b'h' ∷ b'i' ∷ b'\n' ∷ []) ∷ []

cut_request : first_read ++ joined later_reads ≡ request (set key_a words) ++ []
unfolding to_string
cut_request = refl

read-cut_example :
    came_to (read (unread []) (received first_read ∷ chunks later_reads))
    ≡ some (ok (set key_a words))
read-cut_example =
    read-cut (set key_a words) [] [] first_read later_reads set_a-IsRequest (omega arith)
      cut_request

-- The same bytes in two reads, the first of which ends behind the key.
abbrev longer_read : Bytes
longer_read = b'S' ∷ b'E' ∷ b'T' ∷ b':' ∷ b'1' ∷ b':' ∷ b'a' ∷ []

abbrev last_read : List Bytes
last_read = (b':' ∷ b'2' ∷ b':' ∷ b'h' ∷ b'i' ∷ b'\n' ∷ []) ∷ []

read-recut_example :
    came_to (read (unread []) (received first_read ∷ chunks later_reads))
    ≡ came_to (read (unread words) (received longer_read ∷ chunks last_read))
read-recut_example =
    read-recut [] words first_read longer_read later_reads last_read (omega arith) (omega arith)
      refl

abbrev start_of_set : Bytes
start_of_set = b'S' ∷ b'E' ∷ b'T' ∷ []

read-short_example :
    read (unread []) (received start_of_set ∷ received first_read ∷ eof ∷ [])
    ≡ some
        (err (e (short_operation start_of_set)), used start_of_set, received first_read ∷ eof ∷ [])
read-short_example = read-short [] start_of_set (received first_read ∷ eof ∷ []) (omega arith)

-- The key and the length of the value come, and then the other end closes the stream.
abbrev closed_early : List Bytes
closed_early = (b':' ∷ b'a' ∷ b':' ∷ b'2' ∷ []) ∷ [] ∷ [] ∷ []

abbrev missing : Bytes
missing = b':' ∷ b'h' ∷ b'i' ∷ b'\n' ∷ []

cut_short : (first_read ++ joined closed_early) ++ missing ≡ request (set key_a words)
unfolding to_string
cut_short = refl

read-cut_off_example :
    came_to (read (unread []) (received first_read ∷ chunks closed_early)) ≡ some pending
read-cut_off_example =
    read-cut_off (set key_a words) [] first_read missing closed_early set_a-IsRequest (omega arith)
      (omega arith) cut_short
