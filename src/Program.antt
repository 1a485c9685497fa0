-- ===== src/Program.antt =====
-- main.rs: what `run` and `setup` make of their libraries' results. The end of `run` is in
-- kave.Server.Shutdown.
use kave.Base.{ℕ, Option, none, some}
use kave.Base.Bytes.{Bytes}
use kave.Config.{Platform, LogFormat, Config, from_str}
use kave.Error.{Result, ok, err, panic, pending, ◌>>=◌}
use kave.Server.Pem.{PemFiles, load_certs, load_keys}
use kave.Server.Settings.{Server, new}

-- The options of `build_app` that `setup` reads.
pub record Matches : Type 0 where
  pub log_level : Option Bytes
  pub log_format : Option Bytes

-- `setup`'s log level and format.
unfoldable pub log_level_of : Config → Option Bytes → Bytes
log_level_of config none = config.log_level
log_level_of config (some level) = level

unfoldable pub log_format_of : Platform → Config → Option Bytes → Result LogFormat
log_format_of platform config none = ok config.log_format
log_format_of platform config (some f) = from_str platform f

unfoldable pub setup : Platform → Config → Matches → Result (Bytes × LogFormat)
unfolding log_level_of log_format_of
setup platform config matches = do
  log_format ← log_format_of platform config matches.log_format
  ok (log_level_of config matches.log_level, log_format)

-- The first part of `run`, where starting the store came to a result.
unfoldable pub run_start :
    {S : Type 0}
    → Platform
    → PemFiles
    → Config
    → Matches
    → Result (Unit {0}) × S
    → Result (Server × S)
unfolding setup
run_start platform files config matches (started, store) = do
  _ ← setup platform config matches
  certs ← load_certs files config.cert_path
  keys ← load_keys files config.key_path
  _ ← started
  ok (new certs keys, store)

-- `main`: the code with which the process ends. A panic of the main thread ends it with 101.
unfoldable pub exit_code : Result (Unit {0}) → Option ℕ
exit_code (ok _) = some 0
exit_code (err x) = some 1
exit_code panic = some 101
exit_code pending = none
