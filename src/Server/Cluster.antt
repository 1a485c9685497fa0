-- ===== src/Server/Cluster.antt =====
-- `Server::handle_conn` of server/cluster.rs: what comes is sent back.
pub mod Echo
use kave.Base.{ℕ, suc, ◌+◌, Option, none, some, List, [], ◌∷◌, ◌++◌}
use kave.Base.Bytes.{Bytes}
use kave.Error.{Result, ok, err, panic, pending, e, session}

-- What a `read_buf` comes to: bytes (none at an orderly end of the stream), `UnexpectedEof`, or
-- another error.
pub data NodeRead : Type 0 where
  received : Bytes → NodeRead
  unexpected_eof failed : NodeRead

-- `peer n` is what the n-th write comes to, and its flush. A call returns what was written, too.
module _ (peer : ℕ → Result (Unit {0})) where
  -- The loop `'read`, behind `n` writes.
  unfoldable pub read_loop : ℕ → List NodeRead → Bytes → Result (Unit {0}) × Bytes
  read_loop n [] output = (pending, output)
  read_loop n (unexpected_eof ∷ rest) output = (ok tt, output)
  read_loop n (failed ∷ rest) output = (err (e (session "error reading from socket")), output)
  read_loop n (received buf ∷ rest) output =
      let left = read_loop (n + 1) rest (output ++ buf) in
      elim (peer n) [
        | ok _ ↦ left
        | err x ↦ (err x, output)
        | panic ↦ (panic, output)
        | pending ↦ (pending, output)
      ]

  -- `incoming` and `stream` are what accepting the connection came to, and TLS on it.
  unfoldable pub handle_conn :
      Option (Unit {0}) → Option (List NodeRead) → Result (Unit {0}) × Bytes
  unfolding read_loop
  handle_conn none stream = (err (e (session "error accepting tls")), [])
  handle_conn (some _) none = (err (e (session "error accepting stream")), [])
  handle_conn (some _) (some input) = read_loop 0 input []
