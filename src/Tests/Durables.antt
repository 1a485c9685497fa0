-- ===== src/Tests/Durables.antt =====
-- The theorem on two connections with a crash between them.
use kave.Base.{◌+◌, ◌*◌, ◌≤◌, length, [], ◌≡◌, refl, arith}
use kave.CommitLog.Interface.{commit_logs-IsLogs}
use kave.Error.{ok}
use kave.Lsm.Lifetime.Whole.{first_start, nothing}
use kave.Server.Connection.Durable.{
  ServedLsm, AllDiffer, LineFits, later_draws, crashed, sessions-durable,
}
use kave.Server.Connection.Requests.{AllAllowed}
use kave.Server.Connection.Spec.{effects}
use kave.Tests.Codecs.{codec-IsBincode, encode, line_codec-IsBincode}
use kave.Tests.Connections.{draws, open_peer, three_requests, three_requests-AreRequests}
use kave.Tests.Filters.{lengths, lengths-NoFalseNegatives, map_codec, map_codec-IsBincode}
use kave.Tests.Streams.{full_stream}
use kave.Tests.World.{tables, tables_laws, logs, log_laws}

first_fits : AllAllowed (LineFits log_laws draws) 0 three_requests
unfolding commit_logs-IsLogs line_codec-IsBincode codec-IsBincode encode full_stream
first_fits = (omega arith, (tt, (tt, tt)))

later_fits : AllAllowed (LineFits log_laws (later_draws draws 3)) 0 three_requests
unfolding commit_logs-IsLogs line_codec-IsBincode codec-IsBincode encode full_stream
later_fits = (omega arith, (tt, (tt, tt)))

few : length three_requests * (8 + log_laws.line_room) ≤ log_laws.file_room
unfolding commit_logs-IsLogs full_stream
few = omega arith

draws-AllDiffer : AllDiffer draws
draws-AllDiffer i j less same = omega (arith, less, same)

sessions-durable_example :
    (first : ServedLsm lengths-NoFalseNegatives tables_laws log_laws map_codec-IsBincode draws
      open_peer three_requests []
      (first_start lengths tables logs map_codec 10 1000)
      nothing)
    × ((crashed lengths tables logs map_codec first.last.store).0 ≡ ok tt)
    × ServedLsm lengths-NoFalseNegatives tables_laws log_laws map_codec-IsBincode
        (later_draws draws 3)
        open_peer
        three_requests
        []
        (crashed lengths tables logs map_codec first.last.store).1
        (effects three_requests nothing)
sessions-durable_example =
    sessions-durable lengths-NoFalseNegatives tables_laws log_laws map_codec-IsBincode draws
      open_peer 10 1000 three_requests three_requests [] [] (λ n. refl) draws-AllDiffer
      three_requests-AreRequests first_fits three_requests-AreRequests later_fits few
