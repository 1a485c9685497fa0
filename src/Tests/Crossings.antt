-- ===== src/Tests/Crossings.antt =====
-- The theorem on two transactions at once, on the store of World.
use kave.Base.{◌≤◌, ◌≡◌, [], ◌∷◌, none, some, refl, arith}
use kave.Base.Bytes.{Bytes, beq}
use kave.Base.Decimal.{to_string}
use kave.Base.Map.{get}
use kave.Base.Words.{to_be_bytes}
use kave.CommitLog
use kave.CommitLog.{begin_tx}
use kave.CommitLog.Ids.{IsFresh}
use kave.CommitLog.Interface.{LogFits, commit_logs, commit_logs-IsLogs}
use kave.CommitLog.Unfinished.{unfinished, mentions}
use kave.Error.{ok}
use kave.Lsm.{table_name}
use kave.Lsm.Invariant.{view_of}
use kave.Lsm.Recovery.{restore_bloom_map_from_file}
use kave.Lsm.Recovery.Crash.{Recovers, restart, reopened}
use kave.Lsm.Recovery.Crossed.{setting, crossed, crossed-Recovers}
use kave.Lsm.Write.{log_begin, apply_transaction, with_log}
use kave.Store.Contract.{View}
use kave.Tests.Codecs.{codec, codec-IsBincode, encode, line_codec, line_codec-IsBincode}
use kave.Tests.Streams.{full_stream}
use kave.Tests.World.{
  key_lists-NoFalseNegatives, tables_laws, logs, log_laws, key_a, old_tables, lines, store,
  store-Sound, store-IsLogged, no_codec,
}

abbrev four : Bytes
four = b'4' ∷ []

abbrev five : Bytes
five = b'5' ∷ []

nine-IsFresh : IsFresh 9 (unfinished lines)
unfolding unfinished mentions
nine-IsFresh = ((λ h. omega (arith, h)), ((λ h. omega (arith, h)), tt))

ten-IsFresh : IsFresh 10 (unfinished lines)
unfolding unfinished mentions
ten-IsFresh = ((λ h. omega (arith, h)), ((λ h. omega (arith, h)), tt))

nine-short : log_laws.line_size (begin_tx (setting 9 key_a four)) ≤ log_laws.line_room
unfolding commit_logs-IsLogs line_codec-IsBincode codec-IsBincode encode full_stream
nine-short = omega arith

ten-short : log_laws.line_size (begin_tx (setting 10 key_a five)) ≤ log_laws.line_room
unfolding commit_logs-IsLogs line_codec-IsBincode codec-IsBincode encode full_stream
ten-short = omega arith

crossed-LogFits :
    LogFits log_laws (crossed logs (setting 9 key_a four) (setting 10 key_a five) store).commit_log
unfolding crossed log_begin apply_transaction with_log commit_logs CommitLog.begin_transaction
    CommitLog.encode commit_logs-IsLogs line_codec line_codec-IsBincode codec codec-IsBincode encode
    full_stream to_be_bytes
crossed-LogFits = omega arith

crossed-no_bloom_map :
    restore_bloom_map_from_file no_codec
      (reopened (crossed logs (setting 9 key_a four) (setting 10 key_a five) store))
    ≡ ok none
unfolding restore_bloom_map_from_file restart crossed log_begin apply_transaction with_log get beq
    table_name to_string
crossed-no_bloom_map = refl

crossed-Recovers_example :
    (view_of
        (crossed logs (setting 9 key_a four) (setting 10 key_a five) store).memtable
        old_tables
        key_a
      ≡ some four)
    × ((f : View) × Recovers key_lists-NoFalseNegatives tables_laws log_laws no_codec
          (reopened (crossed logs (setting 9 key_a four) (setting 10 key_a five) store))
          old_tables
          f
        × (f key_a ≡ some five))
crossed-Recovers_example =
    crossed-Recovers key_lists-NoFalseNegatives tables_laws log_laws no_codec key_a four five 9 10
      store old_tables lines store-Sound store-IsLogged nine-IsFresh ten-IsFresh
      (λ h. omega (arith, h)) nine-short ten-short crossed-LogFits crossed-no_bloom_map
