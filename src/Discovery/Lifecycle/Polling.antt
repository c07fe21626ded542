-- ===== src/Discovery/Lifecycle/Polling.antt =====
-- What the extension tries while it runs (s3nat/s3nat.go).
use Prim.Native.String.{String}
use gossip_mesh.Base.{◌≡◌, refl, ap, some, List, [], ◌∷◌, ◌++◌, All, All-append}
use gossip_mesh.Bootstrap.{NodeRegistration}
use gossip_mesh.Discovery.{Network, Step, discover_and_connect}
use gossip_mesh.Discovery.Escalation.{Allowed, discover_and_connect-Allowed}
use gossip_mesh.Discovery.Registered.{Registered, JoinOnly, discover_and_connect-JoinOnly}
use gossip_mesh.Discovery.Lifecycle.{Wake, tick, cancelled, poll_loop, connect_rounds}

module _ {M : Type 0} (net : Network M) (self_id : String) (P : Step → Type 0)
    (each : (s : M) → All P (discover_and_connect net self_id s).1) where
  poll_loop-All : (s : M) (ws : List Wake) → All P (poll_loop net self_id s ws).1
  unfolding poll_loop
  poll_loop-All s [] = tt
  poll_loop-All s (cancelled ∷ ws) = tt
  poll_loop-All s (tick ∷ ws) =
      All-append _ _ _ (each s) (poll_loop-All (discover_and_connect net self_id s).0 ws)

  rounds-All : (s : M) (ws : List Wake) → All P (connect_rounds net self_id s ws).1
  unfolding connect_rounds
  rounds-All s ws =
      All-append _ _ _ (each s) (poll_loop-All (discover_and_connect net self_id s).0 ws)

module _ {M : Type 0} (net : Network M) (self_id : String) where
  -- Whatever the network answers, neither Start nor a round of the poll loop tries anything with the node itself;
  -- they join a peer at the first address that the peer registered, punch only towards a public address, and
  -- ask only a registered relay that has an address and is neither of the two nodes, for a peer that is no
  -- relay.
  pub connect_rounds-Allowed :
      (s : M) (ws : List Wake) → All (Allowed self_id) (connect_rounds net self_id s ws).1
  connect_rounds-Allowed s ws =
      rounds-All net self_id (Allowed self_id) (discover_and_connect-Allowed net self_id) s ws

  -- Between nodes whose registrations Start has made, the extension never gets beyond Join, in Start or in
  -- any round of the poll loop: no hole punch is tried and no relay is asked, whatever the network answers.
  pub connect_rounds-JoinOnly :
      ((s : M) (ps : List NodeRegistration) → net.discover s ≡ some ps → All Registered ps)
      → (s : M) (ws : List Wake) → All JoinOnly (connect_rounds net self_id s ws).1
  connect_rounds-JoinOnly registered s ws =
      rounds-All net self_id JoinOnly (discover_and_connect-JoinOnly net self_id registered) s ws

  poll_loop-append :
      (s : M) (ws more : List Wake)
      → (poll_loop net self_id s (ws ++ cancelled ∷ more)).1 ≡ (poll_loop net self_id s ws).1
  unfolding poll_loop
  poll_loop-append s [] more = refl
  poll_loop-append s (cancelled ∷ ws) more = refl
  poll_loop-append s (tick ∷ ws) more =
      let (s1, steps) = discover_and_connect net self_id s in
      ap (λ xs. steps ++ xs) (poll_loop-append s1 ws more)

  -- Once Stop has cancelled it, the poll loop tries nothing more.
  pub connect_rounds-cancelled :
      (s : M) (ws more : List Wake)
      → (connect_rounds net self_id s (ws ++ cancelled ∷ more)).1
        ≡ (connect_rounds net self_id s ws).1
  unfolding connect_rounds
  connect_rounds-cancelled s ws more =
      let (s1, steps) = discover_and_connect net self_id s in
      ap (λ xs. steps ++ xs) (poll_loop-append s1 ws more)
