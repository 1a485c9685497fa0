-- ===== src/Server/Shutdown/Invariant.antt =====
-- What holds in every state that the tasks of Shutdown come to.
use kave.Base.{ℕ, Bool, true, false, ◌≡◌, ◌≢◌, refl, ap, ◌∙◌, ◌⊎◌, inl, inr}
use kave.Error.{ok, err, panic, pending, timeout_error}
use mathlib.Core.Path.{subst}
use kave.Server.Shutdown.{
  ServerPc, starting, looping, waiting, sending, finished, panicked, ClientPc, absent, accepting,
  leaving, gone, crashed, StorePc, serving, closed, broken, MainPc, selecting, confirming,
  awaiting_server, returned, System, is_over, is_closed, started, ServerStep, ClientStep, StoreStep,
  MainStep, by_server, by_client, by_store, by_main, Work, Event, Schedule, server_no_keys,
  client_no_keys, server_listens, server_fails, client_listens, client_fails, server_stops,
  server_stops_panic, server_stops_alone, server_follows, server_waited, server_ends, client_stops,
  client_stops_panic, client_ends, client_ends_panic, store_closes, store_breaks, main_told,
  main_confirmed, main_skips, main_done, ctrl_c, ctrl_c_panic, accepts, disconnects, server_timeout,
  confirm_timeout, main_timeout, nothing, worked, happened,
}

-- What `run` knows where it is: whether it sent the signal, and which tasks are over.
abbrev pub Known : MainPc → Bool → ServerPc → StorePc → Type 0
Known selecting signalled server store = signalled ≡ false
Known (confirming true) signalled server store = (signalled ≡ false) × (is_over server ≡ true)
Known (confirming false) signalled server store = (signalled ≡ true) × (store ≢ serving)
Known awaiting_server signalled server store = (signalled ≡ true) × (is_closed store ≡ true)
Known (returned (ok _)) signalled server store =
    (is_over server ≡ true) × ((signalled ≡ false) ⊎ (is_closed store ≡ true))
Known (returned _) signalled server store = Unit

pub record Inv (s : System) : Type 0 where
  pub known : Known s.main s.signalled s.server s.store
  pub waits : s.server ≡ waiting → (s.client_signalled ≡ true) × (s.start_client_server ≡ true)
  pub spawned : s.start_client_server ≡ true → s.client ≢ absent

started-Inv : (b keys : Bool) → Inv (started b keys)
unfolding started
started-Inv true keys = record { known = refl; waits = λ e. cc; spawned = λ _ e. cc }
started-Inv false keys = record { known = refl; waits = λ e. cc; spawned = λ e. cc }

-- Nothing is known of a server that is not over.
Known-server :
    (m : MainPc) (b : Bool) (p q : ServerPc) (st : StorePc)
    → is_over p ≡ false
    → Known m b p st
    → Known m b q st
Known-server selecting b p q st o k = k
Known-server (confirming true) b p q st o k = let over = k.1 in cc (o, over)
Known-server (confirming false) b p q st o k = k
Known-server awaiting_server b p q st o k = k
Known-server (returned (ok _)) b p q st o k = let over = k.0 in cc (o, over)
Known-server (returned (err x)) b p q st o k = tt
Known-server (returned panic) b p q st o k = tt
Known-server (returned pending) b p q st o k = tt

-- The end of the store's task.
Known-store :
    (m : MainPc) (b : Bool) (p : ServerPc) (st st' : StorePc)
    → is_closed st' ≡ true
    → Known m b p st
    → Known m b p st'
unfolding is_closed
Known-store selecting b p st st' c k = k
Known-store (confirming true) b p st st' c k = k
Known-store (confirming false) b p st st' c k =
    (k.0, λ e. let open_yet = ap is_closed e in cc (c, open_yet))
Known-store awaiting_server b p st st' c k = (k.0, c)
Known-store (returned (ok _)) b p st st' c k = (k.0, inr c)
Known-store (returned (err x)) b p st st' c k = tt
Known-store (returned panic) b p st st' c k = tt
Known-store (returned pending) b p st st' c k = tt

server_moves :
    (s : System) (q p : ServerPc)
    → s.server ≡ p
    → is_over p ≡ false
    → q ≢ waiting
    → Inv s
    → Inv (record s { server = q })
server_moves s q p e o away inv = record {
  known = Known-server s.main s.signalled s.server q s.store (ap is_over e ∙ o) inv.known;
  waits = λ w. absurd (away w);
  spawned = inv.spawned;
}

client_moves : (s : System) (q : ClientPc) → q ≢ absent → Inv s → Inv (record s { client = q })
client_moves s q there inv = record { known = inv.known; waits = inv.waits; spawned = λ b. there }

store_moves : (s : System) (q : StorePc) → is_closed q ≡ true → Inv s → Inv (record s { store = q })
store_moves s q c inv = record {
  known = Known-store s.main s.signalled s.server s.store q c inv.known;
  waits = inv.waits;
  spawned = inv.spawned;
}

main_moves :
    (s : System) (m : MainPc)
    → Known m s.signalled s.server s.store
    → Inv s
    → Inv (record s { main = m })
main_moves s m k inv = record { known = k; waits = inv.waits; spawned = inv.spawned }

Known-at : (s : System) (m : MainPc) → s.main ≡ m → Inv s → Known m s.signalled s.server s.store
Known-at s m e inv = subst (λ (x : MainPc). Known x s.signalled s.server s.store) e inv.known

ServerStep-Inv : {s t : System} → ServerStep s t → Inv s → Inv t
unfolding is_over
ServerStep-Inv {s} (server_no_keys e no_key) inv =
    server_moves s panicked starting e refl (λ w. cc) inv
ServerStep-Inv {s} (server_listens e key) inv = server_moves s looping starting e refl (λ w. cc) inv
ServerStep-Inv {s} (server_fails e key) inv = server_moves s sending starting e refl (λ w. cc) inv
ServerStep-Inv {s} (server_stops e told both up) inv =
    let unlike =
      Known-server s.main s.signalled s.server waiting s.store (ap is_over e) inv.known in
    record { known = unlike; waits = λ w. (refl, both); spawned = inv.spawned }
ServerStep-Inv {s} (server_stops_panic e told both over) inv =
    server_moves s panicked looping e refl (λ w. cc) inv
ServerStep-Inv {s} (server_stops_alone e told alone) inv =
    server_moves s sending looping e refl (λ w. cc) inv
ServerStep-Inv {s} (server_follows e over) inv = server_moves s sending looping e refl (λ w. cc) inv
ServerStep-Inv {s} (server_waited e over) inv = server_moves s sending waiting e refl (λ w. cc) inv
ServerStep-Inv {s} (server_ends e) inv = server_moves s finished sending e refl (λ w. cc) inv

ClientStep-Inv : {s t : System} → ClientStep s t → Inv s → Inv t
unfolding is_over
ClientStep-Inv {s} (client_no_keys e no_key) inv = client_moves s crashed (λ w. cc) inv
ClientStep-Inv {s} (client_listens e key) inv = client_moves s accepting (λ w. cc) inv
ClientStep-Inv {s} (client_fails e key) inv = client_moves s leaving (λ w. cc) inv
ClientStep-Inv {s} (client_stops e heard n some_conns) inv = client_moves s leaving (λ w. cc) inv
ClientStep-Inv {s} (client_stops_panic e heard none_left) inv = client_moves s crashed (λ w. cc) inv
ClientStep-Inv {s} (client_ends e there) inv = client_moves s gone (λ w. cc) inv
ClientStep-Inv {s} (client_ends_panic e over) inv = client_moves s crashed (λ w. cc) inv

StoreStep-Inv : {s t : System} → StoreStep s t → Inv s → Inv t
unfolding is_over
StoreStep-Inv {s} (store_closes e) inv = store_moves s closed (unfold is_closed in refl) inv
StoreStep-Inv {s} (store_breaks e) inv = store_moves s broken (unfold is_closed in refl) inv

MainStep-Inv : {s t : System} → MainStep s t → Inv s → Inv t
unfolding is_over
MainStep-Inv {s} (main_told e over) inv =
    main_moves s (confirming true) (Known-at s selecting e inv, over) inv
MainStep-Inv {s} (main_confirmed e ended) inv =
    main_moves s awaiting_server ((Known-at s (confirming false) e inv).0, ended) inv
MainStep-Inv {s} (main_skips e) inv =
    let known = Known-at s (confirming true) e inv in
    main_moves s (returned (ok tt)) (known.1, inl known.0) inv
MainStep-Inv {s} (main_done e over) inv =
    main_moves s (returned (ok tt)) (over, inr (Known-at s awaiting_server e inv).1) inv

pub Work-Inv : {s t : System} → Work s t → Inv s → Inv t
Work-Inv (by_server w) inv = ServerStep-Inv w inv
Work-Inv (by_client w) inv = ClientStep-Inv w inv
Work-Inv (by_store w) inv = StoreStep-Inv w inv
Work-Inv (by_main w) inv = MainStep-Inv w inv

pub Event-Inv : {s t : System} → Event s t → Inv s → Inv t
unfolding is_over
Event-Inv {s} (ctrl_c e there) inv = record {
  known = (refl, λ w. cc);
  waits = inv.waits;
  spawned = inv.spawned;
}
Event-Inv {s} (ctrl_c_panic e over) inv = main_moves s (returned panic) tt inv
Event-Inv {s} (accepts e) inv = record {
  known = inv.known;
  waits = inv.waits;
  spawned = inv.spawned;
}
Event-Inv {s} (disconnects n e) inv = record {
  known = inv.known;
  waits = inv.waits;
  spawned = inv.spawned;
}
Event-Inv {s} (server_timeout e there) inv = server_moves s sending waiting e refl (λ w. cc) inv
Event-Inv {s} (confirm_timeout e there) inv = main_moves s (returned (err timeout_error)) tt inv
Event-Inv {s} (main_timeout e there) inv = main_moves s (returned (err _)) tt inv

pub Schedule-Inv : {s t : System} {n : ℕ} → Schedule s n t → Inv s → Inv t
Schedule-Inv nothing inv = inv
Schedule-Inv (worked before runs w) inv = Work-Inv w (Schedule-Inv before inv)
Schedule-Inv (happened before runs v) inv = Event-Inv v (Schedule-Inv before inv)

-- The states that the tasks come to.
pub reached : (b keys : Bool) {n : ℕ} {t : System} → Schedule (started b keys) n t → Inv t
reached b keys before = Schedule-Inv before (started-Inv b keys)
