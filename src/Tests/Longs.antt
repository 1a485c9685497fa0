-- ===== src/Tests/Longs.antt =====
-- The theorems on a record that is longer than the room of one read, on the store of World.
use kave.Base.{true, ℕ, zero, suc, ◌<◌, ◌≡◌, none, [], ◌∷◌, refl, arith}
use kave.Base.Bytes.{Bytes, beq}
use kave.Base.Decimal.{to_string}
use kave.Base.Map.{get}
use kave.Base.Words.{u64_mod, to_be_bytes}
use kave.CommitLog
use kave.CommitLog.{CommitLogLine, begin_tx}
use kave.CommitLog.Interface.{LogFits, commit_logs, commit_logs-IsLogs}
use kave.Error.{ok, err, bincode_error}
use kave.Lsm.{table_name}
use kave.Lsm.Recovery.{restore_bloom_map_from_file, initialize}
use kave.Lsm.Recovery.Crash.{restart, reopened}
use kave.Lsm.Recovery.Long.{long_transaction-fails}
use kave.Lsm.Write.{do_transact, log_begin, apply_transaction, with_log}
use kave.Store.{Transaction, set}
use kave.Tests.Codecs.{codec, codec-IsBincode, encode, line_codec, line_codec-IsBincode}
use kave.Tests.Streams.{full_stream}
use kave.Tests.World.{
  key_lists, tables, tables_laws, logs, log_laws, key_a, old_tables, lines, store, store-OnDisk,
  store-IsLogged, no_codec,
}

-- So many bytes.
abbrev many : ℕ → Bytes
many zero = []
many (suc n) = b'a' ∷ many n

abbrev wide : Transaction
wide = record { id = 9; operations = set key_a (many 64) ∷ [] }

wide-long : log_laws.line_room < log_laws.line_size (begin_tx wide)
unfolding commit_logs-IsLogs line_codec-IsBincode codec-IsBincode encode full_stream
wide-long = omega arith

wide-fits : log_laws.line_size (begin_tx wide) < u64_mod
unfolding commit_logs-IsLogs line_codec-IsBincode codec-IsBincode encode full_stream
wide-fits = omega arith

wide-LogFits : LogFits log_laws (do_transact logs wide true store).1.commit_log
unfolding do_transact log_begin apply_transaction with_log commit_logs CommitLog.begin_transaction
    CommitLog.encode commit_logs-IsLogs line_codec line_codec-IsBincode codec codec-IsBincode encode
    full_stream to_be_bytes
wide-LogFits = omega arith

wide-no_bloom_map :
    restore_bloom_map_from_file no_codec (reopened (do_transact logs wide true store).1) ≡ ok none
unfolding restore_bloom_map_from_file restart do_transact log_begin apply_transaction with_log
    commit_logs CommitLog.begin_transaction CommitLog.encode line_codec codec get beq table_name
    to_string
wide-no_bloom_map = refl

long_transaction-fails_example :
    ((do_transact logs wide true store).0 ≡ ok tt)
    × ((initialize key_lists tables logs no_codec (reopened (do_transact logs wide true store).1)).0
        ≡ err bincode_error)
long_transaction-fails_example =
    long_transaction-fails key_lists tables_laws log_laws no_codec wide store old_tables lines
      store-OnDisk store-IsLogged wide-long wide-fits wide-LogFits wide-no_bloom_map
