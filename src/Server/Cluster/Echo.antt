-- ===== src/Server/Cluster/Echo.antt =====
-- What a node gets back from `handle_conn` of server/cluster.rs.
use kave.Base.{ℕ, ◌+◌, some, List, [], ◌∷◌, ◌++◌, ◌≡◌, refl, ◌∙◌, sym, ap, append_assoc, append-nil}
use kave.Base.Bytes.{Bytes}
use kave.Error.{Result, ok, err, pending, e, session}
use kave.Server.Cluster.{NodeRead, received, unexpected_eof, failed, read_loop, handle_conn}

-- Reads that return some bytes each, and the bytes of all.
abbrev pub messages : List Bytes → List NodeRead
messages [] = []
messages (bytes ∷ rest) = received bytes ∷ messages rest

abbrev pub joined : List Bytes → Bytes
joined [] = []
joined (bytes ∷ rest) = bytes ++ joined rest

module _ (peer : ℕ → Result (Unit {0})) (listens : (n : ℕ) → peer n ≡ ok tt) where
  read_loop-messages :
      (n : ℕ) (bss : List Bytes) (rest : List NodeRead) (output : Bytes) (x : Result (Unit {0}))
      → ((m : ℕ) (out : Bytes) → read_loop peer m rest out ≡ (x, out))
      → read_loop peer n (messages bss ++ rest) output ≡ (x, output ++ joined bss)
  unfolding read_loop
  read_loop-messages n [] rest output x ends = rw append-nil (ends n output)
  read_loop-messages n (bytes ∷ bss) rest output x ends =
      rw (read_loop, listens n)
        (read_loop-messages (n + 1) bss rest (output ++ bytes) x ends
          ∙ ap (λ (out : Bytes). (x, out)) (append_assoc output bytes (joined bss)))

  -- On a stream that brings some reads of bytes, the cluster's `handle_conn` writes these bytes
  -- back in order; it then waits, returns `Ok` on `UnexpectedEof`, or an error on another error.
  -- Reads of no bytes do not end it. The other end takes what is written.
  pub handle_conn-echoes :
      (bss : List Bytes) (rest : List NodeRead)
      → (handle_conn peer (some tt) (some (messages bss)) ≡ (pending, joined bss))
        × (handle_conn peer (some tt) (some (messages bss ++ unexpected_eof ∷ rest))
            ≡ (ok tt, joined bss))
        × (handle_conn peer (some tt) (some (messages bss ++ failed ∷ rest))
            ≡ (err (e (session "error reading from socket")), joined bss))
  unfolding handle_conn
  handle_conn-echoes bss rest = (
    ap (λ (input : List NodeRead). read_loop peer 0 input []) (sym (append-nil (messages bss)))
        ∙ read_loop-messages 0 bss [] [] pending (λ m out. unfold read_loop in refl),
    read_loop-messages 0 bss (unexpected_eof ∷ rest) [] (ok tt) (λ m out. unfold read_loop in refl),
    read_loop-messages 0 bss (failed ∷ rest) [] (err (e (session "error reading from socket")))
        (λ m out. unfold read_loop in refl),
  )
