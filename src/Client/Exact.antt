-- ===== src/Client/Exact.antt =====
-- Which servers client.rs connects to.
use mathlib.Core.List.Memᴰ.{Memᴰ, head, tail, cases_cons}
use kave.Base.{
  ℕ, Bool, true, false, ◌||◌, Option, none, some, List, [], ◌∷◌, ◌≡◌, ◌↔◌, ◌⊎◌, inl, inr, refl,
}
use kave.Base.Bytes.{Bytes, beq, beq_iff}
use kave.Client.{
  new, any_equal, verify_server_cert, Network, or_error, resolve_dns, connect_to, connect,
}
use kave.Error.{ok, e, plain, from_chain}
use kave.Server.Pem.{Certificate}

-- TLS to a stream comes about only if the test accepts the certificate that the other end presents.
pub record IsTls {Ip Tcp Tls : Type 0} (net : Network Ip Tcp Tls) : Type 0 where
  pub peer_certificate : Tls → Certificate
  pub verified :
      (accepts : Certificate → Bool) (stream : Tcp) (tls : Tls)
      → net.tls_connect accepts stream ≡ ok tls
      → accepts (peer_certificate tls) ≡ true

or_cases : (a b : Bool) → (a || b) ≡ true → (a ≡ true) ⊎ (b ≡ true)
or_cases true b h = inl refl
or_cases false b h = inr h

or_right : (a b : Bool) → b ≡ true → (a || b) ≡ true
or_right true b h = refl
or_right false b h = h

any_equal-Mem :
    (c : Certificate) (certs : List Certificate) → (any_equal c certs ≡ true) ↔ Memᴰ c certs
unfolding any_equal
any_equal-Mem c [] = (λ h. cc h, λ m. elim m [ ])
any_equal-Mem c (x ∷ xs) = (
  λ h. elim (or_cases (beq c x) (any_equal c xs) h) [
    | inl same ↦ head ((beq_iff c x).0 same)
    | inr m ↦ tail ((any_equal-Mem c xs).0 m)
  ],
  λ m. elim (cases_cons m) [
    | inl alike ↦ let same = (beq_iff c x).1 alike in rw same refl
    | inr m' ↦ or_right (beq c x) (any_equal c xs) ((any_equal-Mem c xs).1 m')
  ],
)

pub verify_server_cert-exact :
    (certs : List Certificate) (end_entity : Certificate)
    → (verify_server_cert (new certs) end_entity ≡ true) ↔ Memᴰ end_entity certs
unfolding verify_server_cert new
verify_server_cert-exact certs end_entity = any_equal-Mem end_entity certs

module _ {Ip Tcp Tls : Type 0} (net : Network Ip Tcp Tls) (laws : IsTls net) where
  connect_to-exact :
      (port : ℕ) (certs : List Certificate) (host : Bytes) (ip : Option Ip) (tls : Tls)
      → connect_to net port (new certs) host ip ≡ ok tls
      → Memᴰ (laws.peer_certificate tls) certs
  unfolding connect_to
  connect_to-exact port certs host none tls h = cc h
  connect_to-exact port certs host (some ip) tls h =
      from_chain _ (net.tcp_connect ip port)
        (λ stream opened.
          from_chain _ (or_error net (e (plain "error parsing host")) net.server_name)
            (λ named parsed handshake.
              (verify_server_cert-exact certs (laws.peer_certificate tls)).0
                (laws.verified (verify_server_cert (new certs)) stream tls handshake)))
        h

  -- If `connect` returns a connection, the certificate of its other end is one of those that it was
  -- given. TLS comes about only if the verifier accepts the certificate.
  pub connect-exact :
      (addr : Bytes) (port : ℕ) (certs : List Certificate) (tls : Tls)
      → connect net addr port certs ≡ ok tls
      → Memᴰ (laws.peer_certificate tls) certs
  unfolding connect
  connect-exact addr port certs tls h =
      from_chain _ (resolve_dns net addr) (λ ip resolved. connect_to-exact port certs addr ip tls) h
