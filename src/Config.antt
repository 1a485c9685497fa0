-- ===== src/Config.antt =====
-- config.rs. The environment, the temporary directory and the Unicode tables of `trim` and
-- `to_lowercase` are parameters.
pub mod Load
use Prim.Native.String.{String}
use kave.Base.{
  ℕ, ◌+◌, ◌^◌, Bool, ◌||◌, Option, none, some, List, [], ◌∷◌, ◌++◌, ltb, ◌==◌, if◌then◌else◌,
}
use kave.Base.Bytes.{Bytes, beq}
use kave.Base.Decimal.{to_string}
use kave.Base.Text.{parse_usize}
use kave.Error.{Result, ok, err, panic, pending, e, invalid_log_format, ◌>>=◌}

-- What the code asks of its surroundings: `std::env::var(…).ok()`, `std::env::temp_dir`, and of the
-- standard library `Path::join`, `str::trim` and `str::to_lowercase`.
pub record Platform : Type 0 where
  pub var : String → Option Bytes
  pub temp_dir : Bytes
  pub join : Bytes → Bytes → Bytes
  pub trim : Bytes → Bytes
  pub to_lowercase : Bytes → Bytes

pub data LogFormat : Type 0 where
  pretty json : LogFormat

pub record Config : Type 0 where
  pub client_host : Bytes
  pub client_port : ℕ
  pub cluster_host : Bytes
  pub cluster_port : ℕ
  pub seed_peers : List Bytes
  pub cert_path : Bytes
  pub key_path : Bytes
  pub log_level : Bytes
  pub log_format : LogFormat
  pub encryption_key : Bytes
  pub signing_key : Bytes
  pub data_dir : Bytes
  pub commit_log_path : Bytes
  pub memtable_max_mb : ℕ

-- The texts of the code.
abbrev pub any_host : Bytes
any_host = b'0' ∷ b'.' ∷ b'0' ∷ b'.' ∷ b'0' ∷ b'.' ∷ b'0' ∷ []

abbrev pub default_client_port : Bytes
default_client_port = b'7' ∷ b'7' ∷ b'1' ∷ b'9' ∷ []

abbrev pub default_cluster_port : Bytes
default_cluster_port = b'7' ∷ b'7' ∷ b'2' ∷ b'0' ∷ []

abbrev pub default_cert_path : Bytes
default_cert_path =
    b'c' ∷ b'e' ∷ b'r' ∷ b't' ∷ b's' ∷ b'/' ∷ b'c' ∷ b'e' ∷ b'r' ∷ b't' ∷ b'.' ∷ b'p' ∷ b'e' ∷ b'm'
    ∷ []

abbrev pub default_key_path : Bytes
default_key_path =
    b'c' ∷ b'e' ∷ b'r' ∷ b't' ∷ b's' ∷ b'/' ∷ b'k' ∷ b'e' ∷ b'y' ∷ b'.' ∷ b'p' ∷ b'e' ∷ b'm' ∷ []

abbrev pub default_log_level : Bytes
default_log_level = b'i' ∷ b'n' ∷ b'f' ∷ b'o' ∷ []

abbrev pub default_key : Bytes
default_key =
    b'0' ∷ b'1' ∷ b'2' ∷ b'3' ∷ b'4' ∷ b'5' ∷ b'6' ∷ b'7' ∷ b'8' ∷ b'9' ∷ b'0' ∷ b'1' ∷ b'2' ∷ b'3'
    ∷ b'4' ∷ b'5' ∷ b'6' ∷ b'7' ∷ b'8' ∷ b'9' ∷ b'0' ∷ b'1' ∷ b'2' ∷ b'3' ∷ b'4' ∷ b'5' ∷ b'6'
    ∷ b'7' ∷ b'8' ∷ b'9' ∷ b'0' ∷ b'1' ∷ []

abbrev pub default_max_mb : Bytes
default_max_mb = b'2' ∷ b'5' ∷ b'6' ∷ []

abbrev pub json_name : Bytes
json_name = b'j' ∷ b's' ∷ b'o' ∷ b'n' ∷ []

abbrev pub pretty_name : Bytes
pretty_name = b'p' ∷ b'r' ∷ b'e' ∷ b't' ∷ b't' ∷ b'y' ∷ []

abbrev pub commit_log_name : Bytes
commit_log_name = b'c' ∷ b'o' ∷ b'm' ∷ b'm' ∷ b'i' ∷ b't' ∷ b'_' ∷ b'l' ∷ b'o' ∷ b'g' ∷ []

unfoldable pub get_env : Platform → String → Option Bytes
get_env platform k = platform.var k

unfoldable pub env_or : Platform → String → Bytes → Bytes
unfolding get_env
env_or platform k default = elim (get_env platform k) [ none ↦ default | some value ↦ value ]

unfoldable pub from_str : Platform → Bytes → Result LogFormat
from_str platform s =
    let name = platform.to_lowercase (platform.trim s) in
    if beq name [] || beq name json_name
    then ok json
    else if beq name pretty_name
    then ok pretty
    else err (e (invalid_log_format name))

abbrev pub u16_mod : ℕ
u16_mod = 2 ^ 16

unfoldable pub as_u16 : Option ℕ → Option ℕ
as_u16 none = none
as_u16 (some n) = if ltb n u16_mod then some n else none

-- `str::parse::<u16>`
unfoldable pub parse_u16 : Bytes → Option ℕ
unfolding as_u16
parse_u16 s = as_u16 (parse_usize s)

-- `str::split(',')`: a byte before the first comma, and the whole.
unfoldable pub first_with : ℕ → List Bytes → List Bytes
first_with c [] = (c ∷ []) ∷ []
first_with c (part ∷ parts) = (c ∷ part) ∷ parts

unfoldable pub split : Bytes → List Bytes
unfolding first_with
split [] = [] ∷ []
split (c ∷ cs) = let parts = split cs in if c == b',' then [] ∷ parts else first_with c parts

-- `expect`, on what was parsed.
unfoldable pub expect : {A : Type 0} → Option A → Result A
expect none = panic
expect (some a) = ok a

unfoldable pub expect_ok : {A : Type 0} → Result A → Result A
expect_ok (ok a) = ok a
expect_ok (err x) = panic
expect_ok panic = panic
expect_ok pending = pending

-- The fields that are not parsed, behind those that are.
unfoldable pub with_parsed : Platform → ℕ → ℕ → LogFormat → ℕ → Config
unfolding get_env env_or split
with_parsed platform client_port cluster_port log_format memtable_max_mb = record {
  client_host = env_or platform "CLIENT_HOST" any_host;
  client_port = client_port;
  cluster_host = env_or platform "CLUSTER_HOST" any_host;
  cluster_port = cluster_port;
  seed_peers = split (platform.trim (env_or platform "SEED_PEERS" []));
  cert_path = env_or platform "CERT_PATH" default_cert_path;
  key_path = env_or platform "KEY_PATH" default_key_path;
  log_level = env_or platform "LOG_LEVEL" default_log_level;
  log_format = log_format;
  encryption_key = env_or platform "ENCRYPTION_KEY" default_key;
  signing_key = env_or platform "SIGNING_KEY" default_key;
  data_dir = elim (get_env platform "DATA_DIR") [ some dir ↦ dir | none ↦ platform.temp_dir ];
  commit_log_path = elim (get_env platform "COMMIT_LOG_PATH") [
    | some path ↦ path
    | none ↦ platform.join platform.temp_dir commit_log_name
  ];
  memtable_max_mb = memtable_max_mb;
}

-- What was parsed of the ports, the log format and the limit, then the record.
unfoldable pub loaded : Platform → Option ℕ → Option ℕ → Result LogFormat → Option ℕ → Result Config
unfolding with_parsed expect expect_ok
loaded platform client_port cluster_port log_format memtable_max_mb = do
  p ← expect client_port
  q ← expect cluster_port
  format ← expect_ok log_format
  m ← expect memtable_max_mb
  ok (with_parsed platform p q format m)

-- `Config::load`
unfoldable pub load : Platform → Result Config
unfolding loaded parse_u16 from_str
load platform =
    loaded platform (parse_u16 (env_or platform "CLIENT_PORT" default_client_port))
      (parse_u16 (env_or platform "CLUSTER_PORT" default_cluster_port))
      (from_str platform (env_or platform "LOG_FORMAT" pretty_name))
      (parse_usize (env_or platform "MEMTABLE_MAX_MB" default_max_mb))

unfoldable pub get_cluster_addr : Config → Bytes
get_cluster_addr c = c.cluster_host ++ b':' ∷ to_string c.cluster_port

unfoldable pub get_client_addr : Config → Bytes
get_client_addr c = c.client_host ++ b':' ∷ to_string c.client_port
