-- ===== src/Server/Shutdown/Ends.antt =====
-- That `run` of main.rs ends behind ctrl-c, and what is over when it returns `Ok`.
use kave.Base.{ℕ, zero, suc, ◌≤◌, Bool, true, false, ◌≡◌, ◌≢◌, refl, sym, ap, ◌∙◌, ◌⊎◌, inl, inr}
use kave.Error.{ok}
use kave.Server.Shutdown.{
  ServerPc, starting, looping, waiting, sending, finished, panicked, ClientPc, absent, preparing,
  accepting, leaving, gone, crashed, StorePc, serving, asked, closed, broken, MainPc, selecting,
  confirming, awaiting_server, returned, System, is_over, is_gone, is_closed, has_left, hears,
  started, by_server, by_client, by_store, by_main, Work, is_running, Schedule, server_no_keys,
  client_no_keys, server_listens, client_listens, server_stops, server_stops_panic,
  server_stops_alone, server_waited, server_ends, client_stops, client_stops_panic, client_ends,
  store_closes, main_confirmed, main_skips, main_done,
}
use kave.Server.Shutdown.Bound.{schedule-bound}
use kave.Server.Shutdown.Invariant.{Known, Inv, reached}
use mathlib.Core.Path.{subst}

-- The server's next step, where the signal was sent.
server_next :
    (s : System) (p : ServerPc)
    → s.server ≡ p
    → is_over p ≡ false
    → s.signalled ≡ true
    → Inv s
    → (t : System) × Work s t
unfolding is_over
server_next s starting e there told inv = split s.has_keys refl
  where
    split : (keys : Bool) → s.has_keys ≡ keys → (t : System) × Work s t
    split true key = (_, by_server (server_listens e key))
    split false key = (_, by_server (server_no_keys e key))
server_next s looping e there told inv = split s.start_client_server refl (is_gone s.client) refl
  where
    split :
        (both : Bool)
        → s.start_client_server ≡ both
        → (over : Bool) → is_gone s.client ≡ over
        → (t : System) × Work s t
    split false b over g = (_, by_server (server_stops_alone e told b))
    split true b false g = (_, by_server (server_stops e told b g))
    split true b true g = (_, by_server (server_stops_panic e told b g))
server_next s waiting e there told inv = split s.client refl s.conns refl
  where
    prepared : s.client ≡ preparing → (keys : Bool) → s.has_keys ≡ keys → (t : System) × Work s t
    prepared c true key = (_, by_client (client_listens c key))
    prepared c false key = (_, by_client (client_no_keys c key))

    heard : hears s ≡ true
    heard = unfold hears in rw (inv.waits e).0

    split : (c : ClientPc) → s.client ≡ c → (n : ℕ) → s.conns ≡ n → (t : System) × Work s t
    split absent c n k = absurd (inv.spawned (inv.waits e).1 c)
    split preparing c n k = prepared c s.has_keys refl
    split accepting c zero k = (_, by_client (client_stops_panic c heard k))
    split accepting c (suc n) k = (_, by_client (client_stops c heard n k))
    split leaving c n k = (_, by_client (client_ends c (unfold has_left in ap has_left e)))
    split gone c n k = (_, by_server (server_waited e (unfold is_gone in ap is_gone c)))
    split crashed c n k = (_, by_server (server_waited e (unfold is_gone in ap is_gone c)))
server_next s sending e there told inv = (_, by_server (server_ends e))
server_next s finished e there told inv = cc there
server_next s panicked e there told inv = cc there

main_next :
    (s : System) (m : MainPc)
    → s.main ≡ m
    → is_running m ≡ true
    → s.signalled ≡ true
    → Inv s
    → (t : System) × Work s t
unfolding is_running
main_next s selecting e runs told inv =
    let untold : s.signalled ≡ false =
      subst (λ (x : MainPc). Known x s.signalled s.server s.store) e inv.known in
    cc (told, untold)
main_next s (confirming true) e runs told inv = (_, by_main (main_skips e))
main_next s (confirming false) e runs told inv = split s.store refl
  where
    known : (s.signalled ≡ true) × (s.store ≢ serving)
    known = subst (λ (x : MainPc). Known x s.signalled s.server s.store) e inv.known

    split : (q : StorePc) → s.store ≡ q → (t : System) × Work s t
    split serving q = absurd (known.1 q)
    split asked q = (_, by_store (store_closes q))
    split closed q = (_, by_main (main_confirmed e (unfold is_closed in ap is_closed q)))
    split broken q = (_, by_main (main_confirmed e (unfold is_closed in ap is_closed q)))
main_next s awaiting_server e runs told inv = split s.server refl (is_over s.server) refl
  where
    split :
        (p : ServerPc)
        → s.server ≡ p
        → (over : Bool) → is_over s.server ≡ over
        → (t : System) × Work s t
    split p at false g = server_next s p at (sym (ap is_over at) ∙ g) told inv
    split p at true g = (_, by_main (main_done e g))
main_next s (returned x) e runs told inv = cc runs

-- In a schedule of the tasks and of what happens to them, in which `run` sent the shutdown signal,
-- the tasks took at most twelve steps, and `run` has returned or some task has a next step that
-- waits for no timeout.
pub shutdown-ends :
    (b keys : Bool) {n : ℕ} {s : System}
    → Schedule (started b keys) n s
    → s.signalled ≡ true
    → (n ≤ 12) × ((is_running s.main ≡ false) ⊎ ((t : System) × Work s t))
shutdown-ends b keys {n} {s} before told =
    (schedule-bound b keys before, split (is_running s.main) refl)
  where
    split :
        (runs : Bool)
        → is_running s.main ≡ runs
        → (is_running s.main ≡ false) ⊎ ((t : System) × Work s t)
    split true r = inr (main_next s s.main refl r told (reached b keys before))
    split false r = inl r

-- Whenever a schedule of the tasks comes to a state in which `run` has returned `Ok`, the server's
-- task is over; and if `run` had sent the shutdown signal, the store's task is over too, closed or
-- broken.
pub returned_ok-over :
    (b keys : Bool) {n : ℕ} {s : System}
    → Schedule (started b keys) n s
    → s.main ≡ returned (ok tt)
    → (is_over s.server ≡ true) × ((s.signalled ≡ false) ⊎ (is_closed s.store ≡ true))
returned_ok-over b keys {n} {s} before e =
    subst (λ (x : MainPc). Known x s.signalled s.server s.store) e (reached b keys before).known
