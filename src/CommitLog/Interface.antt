-- ===== src/CommitLog/Interface.antt =====
-- What the store above asks of the commit log, filled by commit_log.rs as kave.CommitLog models it.
use kave.Base.{ℕ, ◌+◌, ◌≤◌, ◌<◌, List, [], ◌∷◌, ◌++◌, ◌≡◌, refl, length}
use kave.Base.Bytes.{Bytes}
use kave.Base.Words.{u64_mod}
use kave.Error.{Result, ok, err, bincode_error}
use kave.External.{Codec, IsBincode, AsyncIo, IsBigEndian, FullReads}
use kave.Store.{Uuid, Transaction}
use kave.CommitLog
use kave.CommitLog.{CommitLogLine, begin_tx, end_tx, CommitLog, created}
use kave.CommitLog.Lines.{
  bytes_of, Fit, Made, begin_transaction-Holds, end_transaction-Holds, begin_transaction-Made,
  begin_transaction-grows, end_transaction-grows, end_transaction-Made,
}
use kave.CommitLog.Torn.{get_unfinished_long}
use kave.CommitLog.Unfinished.{
  unfinished, get_unfinished_lem, get_unfinished-Holds, get_unfinished-Made,
}

pub record Logs : Type 0 where
  pub begin_transaction : Transaction → CommitLog → Result (Unit {0}) × CommitLog
  pub end_transaction : Uuid → CommitLog → Result (Unit {0}) × CommitLog
  pub get_unfinished_transactions : CommitLog → Result (List Transaction) × CommitLog

-- Every line fits in the room that it is read into.
abbrev pub AllShort : (CommitLogLine → ℕ) → ℕ → List CommitLogLine → Type 0
AllShort size room [] = Unit
AllShort size room (l ∷ ls) = (size l ≤ room) × AllShort size room ls

pub record IsLogs (logs : Logs) : Type 0 where
  pub image : List CommitLogLine → Bytes
  pub image_nil : image [] ≡ []
  pub line_size : CommitLogLine → ℕ
  -- The longest line, and the longest file, that is read back.
  pub line_room : ℕ
  pub file_room : ℕ
  pub begin_ok :
      (tx : Transaction) (log : CommitLog) (ls : List CommitLogLine)
      → created log.file ≡ image ls
      → ((logs.begin_transaction tx log).0 ≡ ok tt)
        × (created (logs.begin_transaction tx log).1.file ≡ image (ls ++ begin_tx tx ∷ []))
  pub end_ok :
      (id : Uuid) (log : CommitLog) (ls : List CommitLogLine)
      → created log.file ≡ image ls
      → ((logs.end_transaction id log).0 ≡ ok tt)
        × (created (logs.end_transaction id log).1.file ≡ image (ls ++ end_tx id ∷ []))
  pub begin_made : (tx : Transaction) (log : CommitLog) → Made (logs.begin_transaction tx log).1
  pub end_made : (id : Uuid) (log : CommitLog) → Made (logs.end_transaction id log).1
  pub begin_grows :
      (tx : Transaction) (log : CommitLog)
      → length (created (logs.begin_transaction tx log).1.file)
        ≡ length (created log.file) + (8 + line_size (begin_tx tx))
  pub end_grows :
      (id : Uuid) (log : CommitLog)
      → length (created (logs.end_transaction id log).1.file)
        ≡ length (created log.file) + (8 + line_size (end_tx id))
  pub unfinished_made : (log : CommitLog) → Made (logs.get_unfinished_transactions log).1
  pub unfinished_ok :
      (log : CommitLog) (ls : List CommitLogLine)
      → created log.file ≡ image ls
      → AllShort line_size line_room ls
      → length (created log.file) ≤ file_room
      → ((logs.get_unfinished_transactions log).0 ≡ ok (unfinished ls))
        × (created (logs.get_unfinished_transactions log).1.file ≡ image ls)
  pub unfinished_long :
      (log : CommitLog) (ls more : List CommitLogLine) (line : CommitLogLine)
      → created log.file ≡ image (ls ++ line ∷ more)
      → AllShort line_size line_room ls
      → line_room < line_size line
      → line_size line < u64_mod
      → length (created log.file) ≤ file_room
      → (logs.get_unfinished_transactions log).0 ≡ err bincode_error

-- The log's file is short enough to be read back.
abbrev pub LogFits : {logs : Logs} → IsLogs logs → CommitLog → Type 0
LogFits laws log = length (created log.file) ≤ laws.file_room

unfoldable pub commit_logs : Codec CommitLogLine → AsyncIo → Logs
commit_logs codec tokio = record {
  begin_transaction = CommitLog.begin_transaction codec;
  end_transaction = CommitLog.end_transaction codec;
  get_unfinished_transactions = CommitLog.get_unfinished_transactions codec tokio;
}

pub AllShort-Fit :
    {codec : Codec CommitLogLine} (bincode : IsBincode codec) (room : ℕ) (ls : List CommitLogLine)
    → AllShort (λ l. length (bincode.encoding l)) room ls
    → Fit bincode room ls
AllShort-Fit bincode room [] h = tt
AllShort-Fit bincode room (l ∷ ls) h = (h.0, AllShort-Fit bincode room ls h.1)

-- For lines that are no longer than the room of a read, and files than the buffer, the code of commit_log.rs keeps this interface.
unfoldable pub commit_logs-IsLogs :
    {codec : Codec CommitLogLine} (bincode : IsBincode codec) {tokio : AsyncIo}
    (big_endian : IsBigEndian tokio)
    → FullReads tokio
    → IsLogs (commit_logs codec tokio)
unfolding commit_logs
commit_logs-IsLogs {codec} bincode {tokio} big_endian full = record {
  image = bytes_of bincode;
  image_nil = refl;
  line_size = λ l. length (bincode.encoding l);
  line_room = tokio.vec_room;
  file_room = tokio.buffer_size;
  begin_ok = λ tx log ls h. begin_transaction-Holds bincode tx log ls h;
  end_ok = λ id log ls h. end_transaction-Holds bincode id log ls h;
  begin_made = λ tx log. begin_transaction-Made bincode tx log;
  end_made = λ id log. end_transaction-Made bincode id log;
  begin_grows = λ tx log. begin_transaction-grows bincode tx log;
  end_grows = λ id log. end_transaction-grows bincode id log;
  unfinished_made = λ log. get_unfinished-Made codec tokio log;
  unfinished_long = λ log ls more line h fit long fits whole.
      get_unfinished_long bincode big_endian log ls more line h full
        (AllShort-Fit bincode tokio.vec_room ls fit) long fits whole;
  unfinished_ok = λ log ls h fit whole. (
    get_unfinished_lem bincode big_endian log ls h full (AllShort-Fit bincode tokio.vec_room ls fit)
        whole,
    get_unfinished-Holds bincode big_endian log ls h,
  );
}
