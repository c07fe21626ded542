-- ===== src/Transport/Examples.antt =====
-- A transport with an ended connection, and runs of its callers.
use gossip_mesh.Base.{ℕ, ◌==◌, ◌≡◌, refl, arith, true, false, none, some, List, [], ◌∷◌}
use gossip_mesh.Base.Table.{string_key, lookup, insert}
use gossip_mesh.Transport.{Transport, start_accept_loop, new_transport}
use gossip_mesh.Transport.Serving.{
  TransportEvent, get, open_to, accepts, transport_run, Served, transport_run-Served,
}
use gossip_mesh.Transport.Dial.{returned, dial_step, callers_start, callers_step, callers_run}
use gossip_mesh.Transport.Dial.Unique.{callers_run_unique}
use gossip_mesh.Transport.Dial.Evicted.{two_evictions, live_connection_evicted}

abbrev no_connections : Transport
no_connections = record {
  app_conns = [];
  ended = λ c. false;
  remote_addr = λ c. "10.0.0.9:7001";
  accepting = [];
  closed = false;
}

-- Connection 1 has ended.
abbrev one_ended : Transport
one_ended = record no_connections { app_conns = ("10.0.0.2:7001", 1) ∷ []; ended = λ c. c == 1 }

-- Each caller dials the connection of its own number, for the same address.
abbrev raced : List ℕ
raced = 0 ∷ 1 ∷ 0 ∷ 1 ∷ 0 ∷ 1 ∷ 1 ∷ 0 ∷ []

callers_run_unique_example :
    let t' =
      (callers_run
        (λ i. "10.0.0.2:7001")
        (λ i. some i)
        (callers_start no_connections)
        raced).transport in
    let zeroth : ℕ = 0 in
    (zeroth ≡ zeroth) × (lookup "10.0.0.2:7001" t'.app_conns ≡ some 0) × (t'.ended 0 ≡ false)
unfolding callers_run callers_step callers_start dial_step start_accept_loop lookup insert
callers_run_unique_example =
    callers_run_unique (λ i. "10.0.0.2:7001") (λ i. some i) (λ i j c h g. ground arith)
      no_connections raced 0 1 0 0 (λ a c h. ground arith) (λ k c h. (λ a g. cc g, refl)) refl refl
      refl

live_connection_evicted_example :
    let r =
      callers_run (λ i. "10.0.0.2:7001") (λ i. some 2) (callers_start one_ended) two_evictions in
    (r.pcs 1 ≡ returned (some 2))
    × (lookup "10.0.0.2:7001" r.transport.app_conns ≡ none)
    × (r.transport.ended 2 ≡ false)
unfolding lookup
live_connection_evicted_example =
    live_connection_evicted "10.0.0.2:7001" (λ i. some 2) one_ended 1 2 (tt, tt) refl refl refl refl

-- An inbound connection, and a stream on a connection that is dialed.
abbrev two_served : List TransportEvent
two_served =
    accepts ((some 1, false) ∷ (none, false) ∷ [])
    ∷ open_to (some 2) true "10.0.0.2:7001"
    ∷ get "10.0.0.9:7001"
    ∷ []

transport_run-Served_example : Served (transport_run no_connections two_served)
unfolding new_transport
transport_run-Served_example =
    transport_run-Served (λ c. false) (λ c. "10.0.0.9:7001") true true true no_connections
      two_served refl
