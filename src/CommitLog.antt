-- ===== src/CommitLog.antt =====
-- store/lsm/commit_log.rs: the append-only log of transactions. Lines has the file's format, Unfinished
-- what is to be read back from it, Torn records that are cut off or too long.
pub mod Lines
pub mod Unfinished
pub mod Torn
pub mod Ids
pub mod Interface
use kave.Base.{
  ℕ, zero, suc, ◌+◌, ◌≤◌, Bool, true, false, Option, none, some, List, [], ◌∷◌, ◌++◌, leb, ltb,
  ◌==◌, length, if◌then◌else◌,
}
use kave.Base.Bytes.{Bytes}
use kave.Base.Words.{to_be_bytes}
use kave.Error.{Error, Result, ok, err, panic, pending, io, unexpected_eof, ◌>>=◌}
use kave.External.{Codec, AsyncIo}
use kave.Store.{Uuid, Transaction}

pub data CommitLogLine : Type 0 where
  begin_tx : Transaction → CommitLogLine
  end_tx : Uuid → CommitLogLine

-- The bytes of the file at `log_path`, if there is one, and whether `logfile` is open.
pub record CommitLog : Type 0 where
  pub file : Option Bytes
  pub logfile : Bool

unfoldable pub new : Option Bytes → CommitLog
new on_disk = record { file = on_disk; logfile = false }

-- `OpenOptions` with `create(true)` and no `truncate`.
abbrev pub created : Option Bytes → Bytes
created none = []
created (some bytes) = bytes

get_write_handle : CommitLog → CommitLog
get_write_handle log =
    if log.logfile then log else record { file = some (created log.file); logfile = true }

-- `write_all` on the handle, which is open to append. A file that was unlinked while the handle
-- was open is not modelled.
write_all : Bytes → CommitLog → CommitLog
write_all bytes log = record log { file = some (created log.file ++ bytes) }

-- The transactions by id, with the number of their line.
abbrev pub Pending : Type 0
Pending = List (Uuid × ℕ × Transaction)

-- `HashMap::remove` and `HashMap::insert`. The program sorts what it takes out of the map by line
-- number, so the order of the entries does not show.
unfoldable pub remove : Uuid → Pending → Pending
remove id [] = []
remove id ((j, i, tx) ∷ txs) =
    let rest = remove id txs in if id == j then rest else (j, i, tx) ∷ rest

unfoldable pub insert : Uuid → ℕ → Transaction → Pending → Pending
unfolding remove
insert id i tx txs = remove id txs ++ (id, i, tx) ∷ []

-- The match of the loop on the line that was read.
unfoldable pub apply_line : ℕ → CommitLogLine → Pending → Pending
unfolding insert
apply_line i (begin_tx tx) txs = insert tx.id i tx txs
apply_line i (end_tx id) txs = remove id txs

-- `sorted_by_key(|v| v.0)`: a stable sort.
unfoldable pub place : ℕ → Transaction → List (ℕ × Transaction) → List (ℕ × Transaction)
place i tx [] = (i, tx) ∷ []
place i tx ((j, t) ∷ r) = if leb i j then (i, tx) ∷ (j, t) ∷ r else (j, t) ∷ place i tx r

unfoldable pub sort_values : Pending → List (ℕ × Transaction)
unfolding place
sort_values [] = []
sort_values ((id, i, tx) ∷ txs) = place i tx (sort_values txs)

unfoldable pub transactions : List (ℕ × Transaction) → List Transaction
transactions [] = []
transactions ((i, tx) ∷ r) = tx ∷ transactions r

-- The first match of `decode_from`: the end of the file is no error.
size_of : Result (ℕ × Bytes) → Result (Option (ℕ × Bytes))
size_of (ok sized) = ok (some sized)
size_of (err (io unexpected_eof)) = ok none
size_of (err x) = err x
size_of panic = panic
size_of pending = pending

-- Opening the file to read creates it.
unfoldable pub get_read_handle : CommitLog → CommitLog
get_read_handle log = record log { file = some (created log.file) }

-- The file was made, or it got longer. Nothing removes it or takes bytes from it.
unfoldable pub grew : Option Bytes → Option Bytes → Bool
grew none none = false
grew none (some new_bytes) = true
grew (some old_bytes) none = false
grew (some old_bytes) (some new_bytes) = ltb (length old_bytes) (length new_bytes)

-- When the file was last modified.
unfoldable pub written_at : CommitLog → CommitLog → ℕ → ℕ → ℕ
unfolding grew
written_at old left before now = if grew old.file left.file then now else before

module _ (codec : Codec CommitLogLine) where
  unfoldable pub encode : CommitLogLine → Result Bytes
  encode line = do
    size ← codec.serialized_size line
    body ← codec.serialize line
    ok (to_be_bytes size ++ body)

  append_line : CommitLogLine → CommitLog → Result (Unit {0}) × CommitLog
  unfolding encode get_write_handle write_all
  append_line line log = elim (encode line) [
    | ok bytes ↦ (ok tt, write_all bytes (get_write_handle log))
    | err x ↦ (err x, log)
    | panic ↦ (panic, log)
    | pending ↦ (pending, log)
  ]

  unfoldable pub begin_transaction : Transaction → CommitLog → Result (Unit {0}) × CommitLog
  unfolding append_line
  begin_transaction tx log = append_line (begin_tx tx) log

  unfoldable pub end_transaction : Uuid → CommitLog → Result (Unit {0}) × CommitLog
  unfolding append_line
  end_transaction id log = append_line (end_tx id) log

module _ (codec : Codec CommitLogLine) (tokio : AsyncIo) where
  -- The room of the read: `take(s)` lets no more than the record through, into a new `Vec`.
  unfoldable pub record_room : ℕ → ℕ
  record_room size = if leb size tokio.vec_room then size else tokio.vec_room

  -- `Some(s)` of the second match of `decode_from`.
  read_line : Option (ℕ × Bytes) → Result (Option (CommitLogLine × Bytes))
  read_line none = ok none
  read_line (some (size, stream)) = do
    (buf, rest) ← tokio.read_buf stream (record_room size)
    line ← codec.deserialize buf
    ok (some (line, rest))

  -- The line read, with the stream after it.
  unfoldable pub decode_from : Bytes → Result (Option (CommitLogLine × Bytes))
  unfolding size_of read_line record_room
  decode_from stream = do sized ← size_of (tokio.read_u64 stream); read_line sized

  -- The loop. `pending` means that the fuel ran out.
  unfoldable pub read_lines : ℕ → Bytes → ℕ → Pending → Result Pending
  read_lines zero stream i txs = pending
  read_lines (suc fuel) stream i txs = decode_from stream >>= elim [
    | none ↦ ok txs
    | some (line, rest) ↦ read_lines fuel rest (i + 1) (apply_line i line txs)
  ]

  -- A record is at least a byte long, so the loop makes at most a round for each byte of the file
  -- and one more.
  unfoldable pub read_all : Bytes → Result Pending
  read_all bytes = read_lines (suc (length bytes)) bytes 0 []

  unfoldable pub get_unfinished_transactions : CommitLog → Result (List Transaction) × CommitLog
  unfolding get_read_handle
  get_unfinished_transactions log =
      let opened = get_read_handle log in
      ((do txs ← read_all (created opened.file); ok (transactions (sort_values txs))), opened)
