-- ===== src/Server/Pem.antt =====
-- `load_certs` and `load_keys` of server/mod.rs. Opening and reading a file, and `rustls_pemfile`,
-- are parameters.
use kave.Base.{Option, none, some, List}
use kave.Base.Bytes.{Bytes}
use kave.Error.{Result, ok, err, e, plain, ◌>>=◌}

-- A `Certificate` is its DER bytes.
abbrev pub Certificate : Type 0
Certificate = Bytes

abbrev pub PrivateKey : Type 0
PrivateKey = Bytes

-- `File::open`, and the two parsers on what the file holds; `none` is an error.
pub record PemFiles : Type 0 where
  pub open_file : Bytes → Result Bytes
  pub certs : Bytes → Option (List Bytes)
  pub rsa_private_keys : Bytes → Option (List Bytes)

unfoldable pub load_certs : PemFiles → Bytes → Result (List Certificate)
load_certs files p = do
  contents ← files.open_file p
  elim (files.certs contents) [ none ↦ err (e (plain "invalid cert file")) | some certs ↦ ok certs ]

unfoldable pub load_keys : PemFiles → Bytes → Result (List PrivateKey)
load_keys files p = do
  contents ← files.open_file p
  elim (files.rsa_private_keys contents) [
    | none ↦ err (e (plain "invalid key file"))
    | some keys ↦ ok keys
  ]
