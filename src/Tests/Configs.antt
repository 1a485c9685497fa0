-- ===== src/Tests/Configs.antt =====
-- The theorems on config.rs, where the environment has no variables.
use kave.Base.{none, [], ◌∷◌, ◌++◌, ◌≡◌, refl, arith}
use kave.Base.Bytes.{beq}
use kave.Base.Decimal.{to_string}
use kave.Base.Text.{parse_usize}
use kave.Config.{
  Platform, Config, pretty, env_or, get_env, from_str, load, get_client_addr, get_cluster_addr,
  with_parsed,
}
use kave.Config.Load.{load-ports}
use kave.Error.{ok}

abbrev bare : Platform
bare = record {
  var = λ k. none;
  temp_dir = b't' ∷ [];
  join = λ dir name. dir ++ b'/' ∷ name;
  trim = λ s. s;
  to_lowercase = λ s. s;
}

load-ports_example :
    (c : Config) × (load bare ≡ ok c)
    × (get_client_addr c ≡ c.client_host ++ b':' ∷ to_string 7719)
    × (get_cluster_addr c ≡ c.cluster_host ++ b':' ∷ to_string 7720)
    × (c.memtable_max_mb ≡ 256)
    × (c.log_format ≡ pretty)
unfolding env_or get_env from_str to_string beq
load-ports_example =
    load-ports bare 7719 7720 256 pretty (omega arith) (omega arith) (omega arith) refl refl refl
      refl

load-bare : load bare ≡ ok (with_parsed bare 7719 7720 pretty 256)
unfolding load parse_usize beq
load-bare = refl

abbrev bare_config : Config
bare_config = with_parsed bare 7719 7720 pretty 256
