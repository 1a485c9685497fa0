-- ===== src/Tests/Logs.antt =====
-- The theorems on the commit log, on a log with two transactions.
use kave.Base.{◌<◌, some, [], ◌∷◌, ◌++◌, ◌≡◌, refl, arith, false, length, take}
use kave.Base.Bytes.{Bytes}
use kave.Base.Words.{to_be_bytes, u64_mod}
use kave.CommitLog.{
  CommitLogLine, begin_tx, CommitLog, begin_transaction, get_unfinished_transactions, record_room,
}
use kave.CommitLog.Lines.{bytes_of, Holds, Fit, begin_transaction-Holds}
use kave.CommitLog.Torn.{get_unfinished_torn}
use kave.CommitLog.Unfinished.{unfinished, get_unfinished_tail}
use kave.Error.{ok, err, bincode_error}
use kave.Tests.Codecs.{codec-IsBincode, encode, line_codec, line_codec-IsBincode}
use kave.Tests.Streams.{full_stream, full_stream-IsBigEndian, full_stream-FullReads}
use kave.Tests.World.{lines, change, removal}

abbrev line : CommitLogLine
line = begin_tx change

abbrev body : Bytes
body = line_codec-IsBincode.encoding line

abbrev log_of : Bytes → CommitLog
log_of bytes = record { file = some bytes; logfile = false }

lines-Fit : Fit line_codec-IsBincode full_stream.vec_room lines
unfolding line_codec-IsBincode codec-IsBincode encode full_stream
lines-Fit = (omega arith, (omega arith, tt))

line-fits : length body < u64_mod
unfolding line_codec-IsBincode codec-IsBincode encode
line-fits = omega arith

line-longer : 2 < length body
unfolding line_codec-IsBincode codec-IsBincode encode
line-longer = omega arith

begin_transaction-Holds_example :
    ((begin_transaction line_codec removal (log_of [])).0 ≡ ok tt)
    × Holds line_codec-IsBincode
        (begin_transaction line_codec removal (log_of [])).1
        (begin_tx removal ∷ [])
begin_transaction-Holds_example =
    begin_transaction-Holds line_codec-IsBincode removal (log_of []) [] refl

get_unfinished_tail_example :
    (get_unfinished_transactions line_codec full_stream
      (log_of (bytes_of line_codec-IsBincode lines ++ 0 ∷ 0 ∷ []))).0
    ≡ ok (unfinished lines)
get_unfinished_tail_example =
    get_unfinished_tail line_codec-IsBincode full_stream-IsBigEndian
      (log_of (bytes_of line_codec-IsBincode lines ++ 0 ∷ 0 ∷ [])) lines (0 ∷ 0 ∷ []) refl
      full_stream-FullReads lines-Fit
      (unfold full_stream line_codec-IsBincode codec-IsBincode encode in omega arith) (omega arith)

torn_read :
    full_stream.read_buf (take 2 body) (record_room line_codec full_stream (length body))
    ≡ ok (take 2 body, [])
unfolding full_stream record_room line_codec-IsBincode codec-IsBincode encode
torn_read = refl

abbrev torn : Bytes
torn = bytes_of line_codec-IsBincode lines ++ (to_be_bytes (length body) ++ take 2 body)

get_unfinished_torn_example :
    (get_unfinished_transactions line_codec full_stream (log_of torn)).0 ≡ err bincode_error
get_unfinished_torn_example =
    get_unfinished_torn line_codec-IsBincode full_stream-IsBigEndian (log_of torn) lines line 2 refl
      full_stream-FullReads lines-Fit
      (unfold full_stream line_codec-IsBincode codec-IsBincode encode to_be_bytes in omega arith)
      line-fits line-longer torn_read
