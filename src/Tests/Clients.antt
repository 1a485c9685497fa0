-- ===== src/Tests/Clients.antt =====
-- The theorems on clients and nodes, over a small network.
use mathlib.Core.List.Memᴰ.{Memᴰ}
use kave.Base.{ℕ, Bool, true, false, some, List, [], ◌∷◌, ◌≡◌, refl}
use kave.Base.Bytes.{beq}
use kave.Client.{Network, connect}
use kave.Client.Exact.{IsTls, connect-exact}
use kave.Error.{Result, ok, err, e, plain}
use kave.Server.Pem.{Certificate}
use kave.Tests.World.{key_a, key_b}

-- Every stream is the certificate that its other end presents.
agreed : Bool → Certificate → Result Certificate
agreed true cert = ok cert
agreed false cert = err (e (plain "bad certificate"))

abbrev local : Network ℕ Certificate Certificate
local = record {
  resolver = some tt;
  lookup_ip = λ host. ok (127 ∷ []);
  tcp_connect = λ ip port. ok key_a;
  server_name = some tt;
  tls_connect = λ accepts cert. agreed (accepts cert) cert;
}

agreed-ok :
    (accepts : Certificate → Bool) (b : Bool) (cert tls : Certificate)
    → accepts cert ≡ b
    → agreed b cert ≡ ok tls
    → accepts tls ≡ true
unfolding agreed
agreed-ok accepts true cert tls at h = cc (at, h)
agreed-ok accepts false cert tls at h = cc h

abbrev local_laws : IsTls local
local_laws = record {
  peer_certificate = λ cert. cert;
  verified = λ accepts cert tls h. agreed-ok accepts (accepts cert) cert tls refl h;
}

abbrev two_certs : List Certificate
two_certs = key_b ∷ key_a ∷ []

connected : connect local key_b 7720 two_certs ≡ ok key_a
unfolding connect agreed beq
connected = refl

connect-exact_example : Memᴰ key_a two_certs
connect-exact_example = connect-exact local local_laws key_b 7720 two_certs key_a connected
