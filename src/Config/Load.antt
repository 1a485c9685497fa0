-- ===== src/Config/Load.antt =====
-- What `Config::load` returns.
use kave.Base.{
  ℕ, ◌<◌, Bool, true, false, Option, none, some, List, [], ◌∷◌, ◌++◌, ◌≡◌, ◌≢◌, refl, ap, ◌∙◌,
  arith, ltb, ◌==◌, if◌then◌else◌,
}
use kave.Base.Bytes.{Bytes}
use kave.Base.Decimal.{to_string}
use kave.Base.Decimal.RoundTrip.{parse_usize-to_string}
use kave.Base.Text.{parse_usize}
use kave.Base.Words.{u64_mod}
use mathlib.Core.Path.{subst}
use kave.Config.{
  Platform, LogFormat, Config, env_or, from_str, u16_mod, as_u16, parse_u16, first_with, split,
  expect, expect_ok, with_parsed, loaded, load, get_cluster_addr, get_client_addr,
  default_client_port, default_cluster_port, default_max_mb, pretty_name,
}
use kave.Error.{Result, ok, err, panic, pending}

pub parse_u16-to_string : (n : ℕ) → n < u16_mod → parse_u16 (to_string n) ≡ some n
unfolding parse_u16 as_u16
parse_u16-to_string n fits =
    let small : ltb n u16_mod ≡ true = ground arith in
    rw (parse_u16, parse_usize-to_string n (omega arith), small)

as_u16-bound : (x : Option ℕ) (n : ℕ) → as_u16 x ≡ some n → n < u16_mod
unfolding as_u16
as_u16-bound none n h = cc h
as_u16-bound (some m) n h = ground (arith, h)

-- A text from its parts, with commas between them.
unfoldable pub commas : List Bytes → Bytes
commas [] = []
commas (part ∷ []) = part
commas (part ∷ parts) = part ++ b',' ∷ commas parts

first_with-some : (c : ℕ) (parts : List Bytes) → first_with c parts ≢ []
unfolding first_with
first_with-some c [] = λ e. cc
first_with-some c (part ∷ parts) = λ e. cc

split-some : (s : Bytes) → split s ≢ []
split-some [] = unfold split in λ e. cc
split-some (c ∷ cs) = unfold split in next (c == b',') refl
  where
    next :
        (comma : Bool)
        → (c == b',') ≡ comma
        → (if c == b',' then [] ∷ split cs else first_with c (split cs)) ≢ []
    next true e = rw e (λ f. cc)
    next false e = rw e (first_with-some c (split cs))

commas-cons :
    (c : ℕ) (parts : List Bytes)
    → parts ≢ []
    → commas (if c == b',' then [] ∷ parts else first_with c parts) ≡ c ∷ commas parts
unfolding commas first_with
commas-cons c [] some_part = absurd (some_part refl)
commas-cons c (part ∷ []) some_part = ground arith
commas-cons c (part ∷ next ∷ parts) some_part = ground arith

commas-split : (s : Bytes) → commas (split s) ≡ s
unfolding split
commas-split [] = unfold commas in refl
commas-split (c ∷ cs) = commas-cons c (split cs) (split-some cs) ∙ ap (◌∷◌ c) (commas-split cs)

-- `load` returns if everything is parsed.
loaded-ok :
    (platform : Platform) (x y : Option ℕ) (f : Result LogFormat) (z : Option ℕ) (c : Config)
    → loaded platform x y f z ≡ ok c
    → (p : ℕ) × (q : ℕ) × (m : ℕ) × (format : LogFormat) × (x ≡ some p)
      × (y ≡ some q)
      × (with_parsed platform p q format m ≡ c)
unfolding loaded expect expect_ok
loaded-ok platform (some p) (some q) (ok format) (some m) c h = (p, q, m, format, refl, refl, cc h)
loaded-ok platform none y f z c h = cc h
loaded-ok platform (some p) none f z c h = cc h
loaded-ok platform (some p) (some q) (err x) z c h = cc h
loaded-ok platform (some p) (some q) panic z c h = cc h
loaded-ok platform (some p) (some q) pending z c h = cc h
loaded-ok platform (some p) (some q) (ok format) none c h = cc h

-- In every configuration that `load` returns, both ports are below 2^16, and the seed peers, with
-- commas between them, are the trimmed variable; they are never none, so without the variable there
-- is one empty peer.
pub load-bounds :
    (platform : Platform) (c : Config)
    → load platform ≡ ok c
    → (c.client_port < u16_mod)
      × (c.cluster_port < u16_mod)
      × (commas c.seed_peers ≡ platform.trim (env_or platform "SEED_PEERS" []))
      × (c.seed_peers ≢ [])
unfolding load with_parsed
load-bounds platform c h =
    let (p, q, m, format, at_p, at_q, same) = loaded-ok platform _ _ _ _ c h in
    let bound = λ (n : ℕ) (s : Bytes) (e : parse_u16 s ≡ some n).
      as_u16-bound (parse_usize s) n (unfold parse_u16 in e) in
    let peers = platform.trim (env_or platform "SEED_PEERS" []) in
    subst
      (λ (d : Config).
        (d.client_port < u16_mod)
        × (d.cluster_port < u16_mod)
        × (commas d.seed_peers ≡ peers)
        × (d.seed_peers ≢ []))
      same (bound p _ at_p, bound q _ at_q, commas-split peers, split-some peers)

-- If the variables of the ports, or their defaults, are the decimals of numbers below 2^16, that of
-- the memtable's limit the decimal of a number below 2^64, and the log format is one that is known,
-- then `load` returns a configuration with that limit and format, whose addresses are its hosts, a
-- colon, and those ports.
pub load-ports :
    (platform : Platform) (p q m : ℕ) (format : LogFormat)
    → p < u16_mod
    → q < u16_mod
    → m < u64_mod
    → env_or platform "CLIENT_PORT" default_client_port ≡ to_string p
    → env_or platform "CLUSTER_PORT" default_cluster_port ≡ to_string q
    → env_or platform "MEMTABLE_MAX_MB" default_max_mb ≡ to_string m
    → from_str platform (env_or platform "LOG_FORMAT" pretty_name) ≡ ok format
    → (c : Config) × (load platform ≡ ok c)
      × (get_client_addr c ≡ c.client_host ++ b':' ∷ to_string p)
      × (get_cluster_addr c ≡ c.cluster_host ++ b':' ∷ to_string q)
      × (c.memtable_max_mb ≡ m)
      × (c.log_format ≡ format)
unfolding load loaded get_client_addr get_cluster_addr with_parsed
load-ports platform p q m format p_fits q_fits m_fits at_p at_q at_m at_format = (
  with_parsed platform p q format m,
  rw (
    at_p,
    parse_u16-to_string p p_fits,
    at_q,
    parse_u16-to_string q q_fits,
    at_format,
    at_m,
    parse_usize-to_string m m_fits,
    expect,
    expect_ok,
  ),
  refl,
  refl,
  refl,
  refl,
)
