-- ===== src/Lsm.antt =====
-- store/lsm.rs: the state of the log-structured store, its file names, and the helpers on memtables
-- and paths. Read has `get` and `scan`, Write transactions and flushes, Recovery start and shutdown.
--
-- Every method takes its locks before it reads or writes what they guard, so a method is one step
-- here. `clock` is what `time_since_epoch` and the file system's clock return, in milliseconds.
pub mod Invariant
pub mod Search
pub mod Scan
pub mod Flush
pub mod Contract
pub mod Agree
pub mod Read
pub mod Write
pub mod Recovery
pub mod Lifetime
pub mod Configured
use kave.Base.{ℕ, Bool, false, Option, none, some, List, [], ◌∷◌, ◌++◌, ◌==◌, if◌then◌else◌}
use kave.Base.Bytes.{Bytes, beq, blt}
use kave.Base.Decimal.{to_string}
use kave.Base.Map.{Map, insert}
use kave.CommitLog
use kave.CommitLog.{CommitLog}
use kave.External.{Codec}
use kave.SsTable.{Directory}
use kave.Store.{Uuid, Operation, set, delete}
use kave.Value.{Value, present, tombstone}

-- The crate growable-bloom-filter: `GrowableBloom::new` at the two constants, `insert`, `contains`.
pub record BloomFilter (Bloom : Type 0) : Type 0 where
  pub empty : Bloom
  pub add : Bytes → Bloom → Bloom
  pub contains : Bloom → Bytes → Bool

-- `HashMap<PathBuf, GrowableBloom>`; a path is a file name in the data directory.
abbrev pub BloomMap : Type 0 → Type 0
BloomMap Bloom = List (Bytes × Bloom)

-- The fields of `LSMStore`, with the files and the times that its methods use. `receivers` is the
-- number of live subscribers of `event_sender`, `events` what was sent to them.
pub record Lsm (Bloom : Type 0) : Type 0 where
  pub memtable : Map Value
  pub tx_ids : List Uuid
  pub commit_log : CommitLog
  pub directory : Directory
  pub memtable_max_bytes : ℕ
  pub bloom_map : BloomMap Bloom
  pub is_shutdown : Bool
  pub receivers : ℕ
  pub events : List Bytes
  pub clock : ℕ
  pub log_modified : ℕ
  pub bloom_modified : ℕ

-- `LSMStore::new` on what a process before it left on the disk.
unfoldable pub new : {Bloom : Type 0} → ℕ → Directory → Option Bytes → ℕ → ℕ → ℕ → Lsm Bloom
unfolding CommitLog.new
new memtable_max_bytes directory log_file clock log_modified bloom_modified = record {
  memtable = [];
  tx_ids = [];
  commit_log = CommitLog.new log_file;
  directory = directory;
  memtable_max_bytes = memtable_max_bytes;
  bloom_map = [];
  is_shutdown = false;
  receivers = 0;
  events = [];
  clock = clock;
  log_modified = log_modified;
  bloom_modified = bloom_modified;
}

abbrev pub sst : Bytes
sst = b's' ∷ b's' ∷ b't' ∷ []

-- The file `bloom_map` of the data directory.
abbrev pub bloom_path : Bytes
bloom_path = b'b' ∷ b'l' ∷ b'o' ∷ b'o' ∷ b'm' ∷ b'_' ∷ b'm' ∷ b'a' ∷ b'p' ∷ []

-- `format!("{}.sst", millis)`
unfoldable pub table_name : ℕ → Bytes
table_name millis = to_string millis ++ b'.' ∷ sst

-- `Path::extension`: what follows the last dot, if that is not the first byte.
unfoldable pub after_last_dot : Bytes → Option Bytes
after_last_dot [] = none
after_last_dot (c ∷ cs) = elim (after_last_dot cs) [
  | some ext ↦ some ext
  | none ↦ if c == b'.' then some cs else none
]

unfoldable pub extension : Bytes → Option Bytes
unfolding after_last_dot
extension [] = none
extension (c ∷ cs) = after_last_dot cs

-- `sort`, by the order of the names.
unfoldable pub place_asc : Bytes → List Bytes → List Bytes
place_asc p [] = p ∷ []
place_asc p (q ∷ ps) = if blt q p then q ∷ place_asc p ps else p ∷ q ∷ ps

unfoldable pub sort_asc : List Bytes → List Bytes
unfolding place_asc
sort_asc [] = []
sort_asc (p ∷ ps) = place_asc p (sort_asc ps)

-- `sorted_by(|a, b| b.cmp(a))`
unfoldable pub place_desc : Bytes → List Bytes → List Bytes
place_desc p [] = p ∷ []
place_desc p (q ∷ ps) = if blt p q then q ∷ place_desc p ps else p ∷ q ∷ ps

unfoldable pub sort_desc : List Bytes → List Bytes
unfolding place_desc
sort_desc [] = []
sort_desc (p ∷ ps) = place_desc p (sort_desc ps)

-- The match of `do_transact` on an instruction.
unfoldable pub perform : Operation → Map Value → Map Value
perform (set key value) memtable = insert key (present value) memtable
perform (delete key) memtable = insert key tombstone memtable

unfoldable pub perform_all : List Operation → Map Value → Map Value
unfolding perform
perform_all [] memtable = memtable
perform_all (o ∷ os) memtable = perform_all os (perform o memtable)

module _ {Bloom : Type 0} where
  -- `HashMap::insert`. What is read out of the map is sorted, so the order of entries does not show.
  unfoldable pub bloom_remove : Bytes → BloomMap Bloom → BloomMap Bloom
  bloom_remove path [] = []
  bloom_remove path ((p, b) ∷ blooms) =
      let rest = bloom_remove path blooms in if beq path p then rest else (p, b) ∷ rest

  unfoldable pub bloom_insert : Bytes → Bloom → BloomMap Bloom → BloomMap Bloom
  unfolding bloom_remove
  bloom_insert path bloom blooms = (path, bloom) ∷ bloom_remove path blooms

  -- A new filter with all of the keys.
  unfoldable pub filter_of : BloomFilter Bloom → List Bytes → Bloom → Bloom
  filter_of filters [] bloom = bloom
  filter_of filters (k ∷ ks) bloom = filter_of filters ks (filters.add k bloom)
