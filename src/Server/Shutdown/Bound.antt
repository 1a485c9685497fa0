-- ===== src/Server/Shutdown/Bound.antt =====
-- How many steps the tasks of Shutdown can take.
use kave.Base.{ℕ, ◌+◌, ◌≤◌, ◌<◌, Bool, true, false, ap, arith}
use kave.Server.Shutdown.{
  ServerPc, starting, looping, waiting, sending, finished, panicked, ClientPc, absent, preparing,
  accepting, leaving, gone, crashed, StorePc, serving, asked, closed, broken, MainPc, selecting,
  confirming, awaiting_server, returned, System, started, ServerStep, ClientStep, StoreStep,
  MainStep, by_server, by_client, by_store, by_main, Work, Event, Schedule, server_no_keys,
  client_no_keys, server_listens, server_fails, client_listens, client_fails, server_stops,
  server_stops_panic, server_stops_alone, server_follows, server_waited, server_ends, client_stops,
  client_stops_panic, client_ends, client_ends_panic, store_closes, store_breaks, main_told,
  main_confirmed, main_skips, main_done, ctrl_c, ctrl_c_panic, accepts, disconnects, server_timeout,
  confirm_timeout, main_timeout, nothing, worked, happened,
}

-- How many steps a task has left at most.
server_left : ServerPc → ℕ
server_left starting = 4
server_left looping = 3
server_left waiting = 2
server_left sending = 1
server_left finished = 0
server_left panicked = 0

client_left : ClientPc → ℕ
client_left preparing = 3
client_left accepting = 2
client_left leaving = 1
client_left absent = 0
client_left gone = 0
client_left crashed = 0

store_left : StorePc → ℕ
store_left serving = 2
store_left asked = 1
store_left closed = 0
store_left broken = 0

main_left : MainPc → ℕ
main_left selecting = 3
main_left (confirming b) = 2
main_left awaiting_server = 1
main_left (returned x) = 0

steps_left : System → ℕ
steps_left s = main_left s.main + server_left s.server + client_left s.client + store_left s.store

ServerStep-steps_left : {s t : System} → ServerStep s t → steps_left t < steps_left s
unfolding steps_left server_left client_left store_left main_left
ServerStep-steps_left (server_no_keys e no_key) = omega (arith, ap server_left e)
ServerStep-steps_left (server_listens e key) = omega (arith, ap server_left e)
ServerStep-steps_left (server_fails e key) = omega (arith, ap server_left e)
ServerStep-steps_left (server_stops e told both up) = omega (arith, ap server_left e)
ServerStep-steps_left (server_stops_panic e told both over) = omega (arith, ap server_left e)
ServerStep-steps_left (server_stops_alone e told alone) = omega (arith, ap server_left e)
ServerStep-steps_left (server_follows e over) = omega (arith, ap server_left e)
ServerStep-steps_left (server_waited e over) = omega (arith, ap server_left e)
ServerStep-steps_left (server_ends e) = omega (arith, ap server_left e)

ClientStep-steps_left : {s t : System} → ClientStep s t → steps_left t < steps_left s
unfolding steps_left server_left client_left store_left main_left
ClientStep-steps_left (client_no_keys e no_key) = omega (arith, ap client_left e)
ClientStep-steps_left (client_listens e key) = omega (arith, ap client_left e)
ClientStep-steps_left (client_fails e key) = omega (arith, ap client_left e)
ClientStep-steps_left (client_stops e heard n some_conns) = omega (arith, ap client_left e)
ClientStep-steps_left (client_stops_panic e heard none_left) = omega (arith, ap client_left e)
ClientStep-steps_left (client_ends e there) = omega (arith, ap client_left e)
ClientStep-steps_left (client_ends_panic e over) = omega (arith, ap client_left e)

StoreStep-steps_left : {s t : System} → StoreStep s t → steps_left t < steps_left s
unfolding steps_left server_left client_left store_left main_left
StoreStep-steps_left (store_closes e) = omega (arith, ap store_left e)
StoreStep-steps_left (store_breaks e) = omega (arith, ap store_left e)

MainStep-steps_left : {s t : System} → MainStep s t → steps_left t < steps_left s
unfolding steps_left server_left client_left store_left main_left
MainStep-steps_left (main_told e over) = omega (arith, ap main_left e)
MainStep-steps_left (main_confirmed e ended) = omega (arith, ap main_left e)
MainStep-steps_left (main_skips e) = omega (arith, ap main_left e)
MainStep-steps_left (main_done e over) = omega (arith, ap main_left e)

Work-steps_left : {s t : System} → Work s t → steps_left t < steps_left s
Work-steps_left (by_server w) = ServerStep-steps_left w
Work-steps_left (by_client w) = ClientStep-steps_left w
Work-steps_left (by_store w) = StoreStep-steps_left w
Work-steps_left (by_main w) = MainStep-steps_left w

Event-steps_left : {s t : System} → Event s t → steps_left t ≤ steps_left s
unfolding steps_left server_left client_left store_left main_left
Event-steps_left (ctrl_c e there) = omega (arith, ap main_left e)
Event-steps_left (ctrl_c_panic e over) = omega (arith, ap main_left e)
Event-steps_left (accepts e) = omega arith
Event-steps_left (disconnects n e) = omega arith
Event-steps_left (server_timeout e there) = omega (arith, ap server_left e)
Event-steps_left (confirm_timeout e there) = omega (arith, ap main_left e)
Event-steps_left (main_timeout e there) = omega (arith, ap main_left e)

Schedule-steps_left : {s t : System} {n : ℕ} → Schedule s n t → n + steps_left t ≤ steps_left s
Schedule-steps_left nothing = omega arith
Schedule-steps_left (worked before runs w) =
    omega (arith, Schedule-steps_left before, Work-steps_left w)
Schedule-steps_left (happened before runs v) =
    omega (arith, Schedule-steps_left before, Event-steps_left v)

steps_left-started : (b keys : Bool) → steps_left (started b keys) ≤ 12
unfolding steps_left started server_left client_left store_left main_left
steps_left-started true keys = omega arith
steps_left-started false keys = omega arith

pub schedule-bound : (b keys : Bool) {n : ℕ} {t : System} → Schedule (started b keys) n t → n ≤ 12
schedule-bound b keys before = omega (arith, Schedule-steps_left before, steps_left-started b keys)
