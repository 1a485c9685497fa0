-- ===== src/Lsm/Configured.antt =====
-- `from_config`, `initialize_from_config` and `events` of store/lsm.rs.
use Prim.Native.Nat.{◌%◌}
use kave.Base.{ℕ, ◌+◌, ◌*◌, Option}
use kave.Base.Bytes.{Bytes}
use kave.Base.Words.{u64_mod}
use kave.CommitLog.Interface.{Logs}
use kave.Config.{Config}
use kave.Error.{Result}
use kave.External.{Codec}
use kave.Lsm.{Lsm, BloomFilter, BloomMap, new}
use kave.Lsm.Recovery.{initialize}
use kave.SsTable.{Directory}
use kave.SsTable.Interface.{Tables}

-- `memtable_max_mb * 1_000_000`, as a release build multiplies.
unfoldable pub max_bytes : Config → ℕ
max_bytes config = config.memtable_max_mb * 1_000_000 % u64_mod

-- What is at the two paths of the configuration, the clock and the files' times.
unfoldable pub from_config :
    {Bloom : Type 0} → Config → Directory → Option Bytes → ℕ → ℕ → ℕ → Lsm Bloom
unfolding max_bytes
from_config config directory log_file clock log_modified bloom_modified =
    new (max_bytes config) directory log_file clock log_modified bloom_modified

-- `LSMStore::events`: one more receiver of the flushes to come.
unfoldable pub subscribed : {Bloom : Type 0} → Lsm Bloom → Lsm Bloom
subscribed s = record s { receivers = s.receivers + 1 }

module _ {Bloom : Type 0} (filters : BloomFilter Bloom) (tables : Tables) (logs : Logs)
    (codec : Codec (BloomMap Bloom)) where
  unfoldable pub initialize_from_config :
      Config → Directory → Option Bytes → ℕ → ℕ → ℕ → Result (Unit {0}) × Lsm Bloom
  unfolding from_config
  initialize_from_config config directory log_file clock log_modified bloom_modified =
      initialize filters tables logs codec
        (from_config config directory log_file clock log_modified bloom_modified)
