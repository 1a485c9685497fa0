-- ===== src/Server/Shutdown.antt =====
-- How the program ends: the tasks of `run` (main.rs), `Server` (server/cluster.rs), `ClientServer`
-- (server/client.rs) and the store (store/lsm.rs), and the channels between them. A step is what one
-- task does between two awaits.
pub mod Invariant
pub mod Bound
pub mod Ends
use kave.Base.{ℕ, suc, ◌+◌, Bool, true, false, ◌≡◌, ◌||◌, if◌then◌else◌}
use kave.Error.{Result, ok, err, panic, plain, e, timeout_error}

-- Where the server's task is: before its listener, in its loop, waiting for the client-server to end,
-- before its last send, or over.
pub data ServerPc : Type 0 where
  starting looping waiting sending finished panicked : ServerPc

-- The same of the client-server's task; `absent` is one that was not spawned.
pub data ClientPc : Type 0 where
  absent preparing accepting leaving gone crashed : ClientPc

-- The store's task: before the request to shut down, behind it, or over.
pub data StorePc : Type 0 where
  serving asked closed broken : StorePc

-- `run` of main.rs, from its `select!` on. `confirming` holds `server_initiated_shutdown`.
pub data MainPc : Type 0 where
  selecting : MainPc
  confirming : Bool → MainPc
  awaiting_server : MainPc
  returned : Result (Unit {0}) → MainPc

-- `signalled` and `client_signalled`: the shutdown signal was sent to the server, to the
-- client-server. `conns` are the receivers of the kill signal, one for each connection. `has_keys`: the file of
-- keys had one.
pub record System : Type 0 where
  pub main : MainPc
  pub server : ServerPc
  pub client : ClientPc
  pub store : StorePc
  pub signalled : Bool
  pub client_signalled : Bool
  pub conns : ℕ
  pub start_client_server : Bool
  pub has_keys : Bool

-- A task that is over has dropped its ends of the channels, behind what it sent. So receiving from it
-- returns, and sending to it fails.
unfoldable pub is_over : ServerPc → Bool
is_over finished = true
is_over panicked = true
is_over _ = false

unfoldable pub is_gone : ClientPc → Bool
is_gone gone = true
is_gone crashed = true
is_gone _ = false

unfoldable pub is_closed : StorePc → Bool
is_closed closed = true
is_closed broken = true
is_closed _ = false

-- `server_start` has returned: what was moved into it is dropped.
unfoldable pub has_left : ServerPc → Bool
has_left sending = true
has_left finished = true
has_left panicked = true
has_left _ = false

-- The client-server's `recv` returns: the signal was sent, or its sender was dropped.
unfoldable pub hears : System → Bool
hears s = s.client_signalled || has_left s.server

-- `Server::start`, with the client-server spawned.
unfoldable pub started : Bool → Bool → System
started start_client_server has_keys = record {
  main = selecting;
  server = starting;
  client = if start_client_server then preparing else absent;
  store = serving;
  signalled = false;
  client_signalled = false;
  conns = 0;
  start_client_server = start_client_server;
  has_keys = has_keys;
}

-- What the server's task does.
pub data ServerStep (s : System) : System → Type 0 where
  -- `self.keys[0]` of a list without keys panics. The TLS configuration and `TcpListener::bind`
  -- behind it succeed, or fail.
  server_no_keys :
      s.server ≡ starting → s.has_keys ≡ false → ServerStep s (record s { server = panicked })
  server_listens :
      s.server ≡ starting → s.has_keys ≡ true → ServerStep s (record s { server = looping })
  server_fails :
      s.server ≡ starting → s.has_keys ≡ true → ServerStep s (record s { server = sending })
  -- The server's loop, on the shutdown signal: `send(true).expect(…)`, or only `break false`.
  server_stops :
      s.server ≡ looping
      → s.signalled ≡ true
      → s.start_client_server ≡ true
      → is_gone s.client ≡ false
      → ServerStep s (record s { server = waiting; client_signalled = true })
  server_stops_panic :
      s.server ≡ looping
      → s.signalled ≡ true
      → s.start_client_server ≡ true
      → is_gone s.client ≡ true
      → ServerStep s (record s { server = panicked })
  server_stops_alone :
      s.server ≡ looping
      → s.signalled ≡ true
      → s.start_client_server ≡ false
      → ServerStep s (record s { server = sending })
  -- On the end of the client-server, in the loop and behind it.
  server_follows :
      s.server ≡ looping → is_gone s.client ≡ true → ServerStep s (record s { server = sending })
  server_waited :
      s.server ≡ waiting → is_gone s.client ≡ true → ServerStep s (record s { server = sending })
  -- `svr_shutdown_send.send(true)`
  server_ends : s.server ≡ sending → ServerStep s (record s { server = finished })

-- What the client-server's task does.
pub data ClientStep (s : System) : System → Type 0 where
  -- The listener, as the server's.
  client_no_keys :
      s.client ≡ preparing → s.has_keys ≡ false → ClientStep s (record s { client = crashed })
  client_listens :
      s.client ≡ preparing → s.has_keys ≡ true → ClientStep s (record s { client = accepting })
  client_fails :
      s.client ≡ preparing → s.has_keys ≡ true → ClientStep s (record s { client = leaving })
  -- The client-server's loop, on the signal: `kill_send.send(true).expect(…)`, which fails if no
  -- connection has a receiver.
  client_stops :
      s.client ≡ accepting
      → hears s ≡ true
      → (n : ℕ) → s.conns ≡ suc n
      → ClientStep s (record s { client = leaving })
  client_stops_panic :
      s.client ≡ accepting
      → hears s ≡ true
      → s.conns ≡ 0
      → ClientStep s (record s { client = crashed })
  -- `svr_shutdown_send.send(true).expect(…)`
  client_ends :
      s.client ≡ leaving → has_left s.server ≡ false → ClientStep s (record s { client = gone })
  client_ends_panic :
      s.client ≡ leaving → has_left s.server ≡ true → ClientStep s (record s { client = crashed })

-- What the store's task does behind the request.
pub data StoreStep (s : System) : System → Type 0 where
  -- `LSMStore::shutdown` and its confirmation, or `expect` of its result.
  store_closes : s.store ≡ asked → StoreStep s (record s { store = closed })
  store_breaks : s.store ≡ asked → StoreStep s (record s { store = broken })

-- What `run` does behind its `select!`.
pub data MainStep (s : System) : System → Type 0 where
  -- `run` on the server's signal.
  main_told :
      s.main ≡ selecting
      → is_over s.server ≡ true
      → MainStep s (record s { main = confirming true })
  -- `join_all`, and the second wait. Without confirmations there is nothing to wait for.
  main_confirmed :
      s.main ≡ confirming false
      → is_closed s.store ≡ true
      → MainStep s (record s { main = awaiting_server })
  main_skips : s.main ≡ confirming true → MainStep s (record s { main = returned (ok tt) })
  main_done :
      s.main ≡ awaiting_server
      → is_over s.server ≡ true
      → MainStep s (record s { main = returned (ok tt) })

-- A step of one of the tasks.
pub data Work (s : System) : System → Type 0 where
  by_server : {t : System} → ServerStep s t → Work s t
  by_client : {t : System} → ClientStep s t → Work s t
  by_store : {t : System} → StoreStep s t → Work s t
  by_main : {t : System} → MainStep s t → Work s t

-- What happens to them: ctrl-c, connections, and the timeouts of five seconds. The server's sleeps in
-- its loop change nothing.
pub data Event (s : System) : System → Type 0 where
  ctrl_c :
      s.main ≡ selecting
      → is_over s.server ≡ false
      → Event s (record s { main = confirming false; signalled = true; store = asked })
  ctrl_c_panic :
      s.main ≡ selecting → is_over s.server ≡ true → Event s (record s { main = returned panic })
  accepts : s.client ≡ accepting → Event s (record s { conns = s.conns + 1 })
  disconnects : (n : ℕ) → s.conns ≡ suc n → Event s (record s { conns = n })
  server_timeout :
      s.server ≡ waiting → is_gone s.client ≡ false → Event s (record s { server = sending })
  confirm_timeout :
      s.main ≡ confirming false
      → is_closed s.store ≡ false
      → Event s (record s { main = returned (err timeout_error) })
  main_timeout :
      s.main ≡ awaiting_server
      → is_over s.server ≡ false
      → Event s (record s {
        main = returned (err (e (plain "server failed to shutdown within 5s timeout")));
      })

unfoldable pub is_running : MainPc → Bool
is_running (returned x) = false
is_running _ = true

-- A schedule, with the number of its steps that are the tasks' own. Behind the return of `run` the
-- process ends.
pub data Schedule (s : System) : ℕ → System → Type 0 where
  nothing : Schedule s 0 s
  worked :
      {n : ℕ} {t u : System}
      → Schedule s n t
      → is_running t.main ≡ true
      → Work t u
      → Schedule s (suc n) u
  happened :
      {n : ℕ} {t u : System}
      → Schedule s n t
      → is_running t.main ≡ true
      → Event t u
      → Schedule s n u
