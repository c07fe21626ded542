-- ===== src/Discovery/Relays.antt =====
-- The choice of a relay (s3nat/s3nat.go).
use Prim.Native.String.{String}
use gossip_mesh.Base.{◌≡◌, refl, true, some, List, [], ◌∷◌, inl, inr, Any, Bool-cases}
use gossip_mesh.Bootstrap.{NodeRegistration}
use gossip_mesh.Discovery.{Network, relay_addr, serves_as_relay, relay_loop}

module _ {M : Type 0} (net : Network M) (self_id : String) (target : NodeRegistration) where
  -- A registered node that may relay, and whose address takes the dial in every state.
  abbrev pub Reachable : NodeRegistration → Type 0
  Reachable p =
      (serves_as_relay self_id target p ≡ true)
      × ((s : M) → (net.dial_relay s (relay_addr p) target).1 ≡ true)

  abbrev pub Chosen : String → NodeRegistration → Type 0
  Chosen a p = (serves_as_relay self_id target p ≡ true) × (relay_addr p ≡ a)

  -- If one of the registered nodes may relay to the target and takes the dial, tryRelay finds a relay, whatever
  -- the dials before it did; the relay that it finds is a registered one that may relay.
  pub relay_loop_found :
      (s : M) (ps : List NodeRegistration)
      → Any Reachable ps
      → (a : String) × ((relay_loop net self_id s target ps).1.1 ≡ some a) × Any (Chosen a) ps
  unfolding relay_loop
  relay_loop_found s [] there = elim there [ ]
  relay_loop_found s (p ∷ ps) there = elim (Bool-cases (serves_as_relay self_id target p)) [
    | inr unfit ↦
        let (a, found, one) =
          relay_loop_found s ps
            (elim there [ inl (fit, _) ↦ cc (fit, unfit) | inr later ↦ later ]) in
        (a, rw (unfit, relay_loop) found, inr one)
    | inl fit ↦ elim (Bool-cases (net.dial_relay s (relay_addr p) target).1) [
      | inl ok ↦ (relay_addr p, rw (fit, relay_loop, ok) refl, inl (fit, refl))
      | inr failed ↦
          let (a, found, one) =
            relay_loop_found (net.dial_relay s (relay_addr p) target).0 ps
              (elim there [ inl (_, takes) ↦ cc (takes s, failed) | inr later ↦ later ]) in
          (a, rw (fit, relay_loop, failed) found, inr one)
    ]
  ]
