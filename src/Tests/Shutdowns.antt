-- ===== src/Tests/Shutdowns.antt =====
-- The theorems on the end of the program, on a schedule of it.
use kave.Base.{◌≤◌, true, false, ◌≡◌, ◌⊎◌, refl}
use kave.Error.{ok}
use kave.Server.Shutdown.{
  System, is_over, is_gone, is_closed, hears, started, by_server, by_client, by_store, by_main,
  Work, is_running, Schedule, confirming, returned, looping, finished, accepting, crashed, asked,
  closed, server_listens, server_stops, server_waited, server_ends, client_listens,
  client_stops_panic, store_closes, main_confirmed, main_done, ctrl_c, nothing, worked, happened,
}
use kave.Server.Shutdown.Ends.{shutdown-ends, returned_ok-over}

-- The state behind ctrl-c.
abbrev at_signal : System
at_signal = record {
  main = confirming false;
  server = looping;
  client = accepting;
  store = asked;
  signalled = true;
  client_signalled = false;
  conns = 0;
  start_client_server = true;
  has_keys = true;
}

-- Both servers listen, and ctrl-c comes.
signalled : Schedule (started true true) 2 at_signal
unfolding started is_over is_running
signalled =
    happened
      (worked (worked nothing refl (by_server (server_listens refl refl))) refl
        (by_client (client_listens refl refl)))
      refl (ctrl_c refl refl)

-- The client-server crashes, the store closes, and `run` returns `Ok`.
abbrev ended : System
ended = record {
  main = returned (ok tt);
  server = finished;
  client = crashed;
  store = closed;
  signalled = true;
  client_signalled = true;
  conns = 0;
  start_client_server = true;
  has_keys = true;
}

to_end : Schedule (started true true) 9 ended
unfolding is_over is_gone is_closed is_running hears
to_end =
    worked
      (worked
        (worked
          (worked
            (worked
              (worked (worked signalled refl (by_server (server_stops refl refl refl refl))) refl
                (by_client (client_stops_panic refl refl refl)))
              refl (by_server (server_waited refl refl)))
            refl (by_server (server_ends refl)))
          refl (by_store (store_closes refl)))
        refl (by_main (main_confirmed refl refl)))
      refl (by_main (main_done refl refl))

returned_ok-over_example :
    (is_over ended.server ≡ true) × ((ended.signalled ≡ false) ⊎ (is_closed ended.store ≡ true))
returned_ok-over_example = returned_ok-over true true to_end refl

shutdown-ends_example :
    (2 ≤ 12) × ((is_running at_signal.main ≡ false) ⊎ ((t : System) × Work at_signal t))
shutdown-ends_example = shutdown-ends true true signalled refl
