-- ===== src/Tests/Protocols.antt =====
-- The theorem on `read`, on a command that comes in two reads.
use kave.Base.{List, [], ◌∷◌, ◌≡◌, ◌≢◌, ◌⊎◌, some}
use kave.Error.{Result, pending}
use kave.Proto.{ProtoOp, ReadEvent, received, Proto, new}
use kave.Proto.Machine.{read}
use kave.Proto.Machine.Termination.{read-returns}

-- `GET:3:` and `key`, with a newline.
abbrev two_reads : List ReadEvent
two_reads =
    received (b'G' ∷ b'E' ∷ b'T' ∷ b':' ∷ b'3' ∷ b':' ∷ [])
    ∷ received (b'k' ∷ b'e' ∷ b'y' ∷ b'\n' ∷ [])
    ∷ []

read-returns_example :
    (x : Result ProtoOp) × (left : Proto) × (rest : List ReadEvent) × (read new two_reads
      ≡ some (x, left, rest))
    × ((x ≢ pending) ⊎ (rest ≡ []))
read-returns_example = read-returns new two_reads
