-- ===== src/Client.antt =====
-- client.rs: connecting to a server whose certificate is known. DNS, TCP and TLS are parameters.
pub mod Exact
use kave.Base.{ℕ, Bool, true, false, ◌||◌, Option, none, some, List, [], ◌∷◌}
use kave.Base.Bytes.{Bytes, beq}
use kave.Error.{Error, Result, ok, err, e, plain, dns_resolution_failure, ◌>>=◌}
use kave.Server.Pem.{Certificate}

pub record ExactCertVerifier : Type 0 where
  pub certs : List Certificate

-- `ExactCertVerifier::new`
unfoldable pub new : List Certificate → ExactCertVerifier
new certs = record { certs = certs }

-- `certs.iter().any(|cert| end_entity == cert)`
unfoldable pub any_equal : Certificate → List Certificate → Bool
any_equal end_entity [] = false
any_equal end_entity (cert ∷ certs) = beq end_entity cert || any_equal end_entity certs

-- Whether the certificate is accepted, or an error.
unfoldable pub verify_server_cert : ExactCertVerifier → Certificate → Bool
unfolding any_equal
verify_server_cert verifier end_entity = any_equal end_entity verifier.certs

-- What the code calls, over addresses, TCP streams and TLS streams. `tls_connect` is given the test
-- of the certificate that the server presents.
pub record Network (Ip Tcp Tls : Type 0) : Type 0 where
  pub resolver : Option (Unit {0})
  pub lookup_ip : Bytes → Result (List Ip)
  pub tcp_connect : Ip → ℕ → Result Tcp
  pub server_name : Option (Unit {0})
  pub tls_connect : (Certificate → Bool) → Tcp → Result Tls

module _ {Ip Tcp Tls : Type 0} (net : Network Ip Tcp Tls) where
  unfoldable pub or_error : Error → Option (Unit {0}) → Result (Unit {0})
  or_error x none = err x
  or_error x (some _) = ok tt

  unfoldable pub first_of : List Ip → Option Ip
  first_of [] = none
  first_of (ip ∷ ips) = some ip

  unfoldable pub resolve_dns : Bytes → Result (Option Ip)
  unfolding or_error first_of
  resolve_dns host = do
    _ ← or_error (e (plain "error constructing DNS resolver client")) net.resolver
    ips ← net.lookup_ip host
    ok (first_of ips)

  -- Behind the lookup.
  unfoldable pub connect_to : ℕ → ExactCertVerifier → Bytes → Option Ip → Result Tls
  unfolding verify_server_cert or_error
  connect_to port verifier host none = err (dns_resolution_failure host)
  connect_to port verifier host (some ip) = do
    stream ← net.tcp_connect ip port
    _ ← or_error (e (plain "error parsing host")) net.server_name
    net.tls_connect (verify_server_cert verifier) stream

  unfoldable pub connect : Bytes → ℕ → List Certificate → Result Tls
  unfolding resolve_dns new connect_to
  connect addr port certs = do ip ← resolve_dns addr; connect_to port (new certs) addr ip
