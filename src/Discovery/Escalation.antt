-- ===== src/Discovery/Escalation.antt =====
-- Whom discoverAndConnect tries, and how (s3nat/s3nat.go).
use Prim.Native.String.{String}
use text.Mathlib.Text.{◌==◌ as str_eq}
use text.Mathlib.TextEquality.{eq_iff}
use gossip_mesh.Base.{
  ◌≡◌, ◌≢◌, refl, arith, true, false, ◌||◌, List, [], ◌∷◌, ◌++◌, inl, inr, All, All-append, if_both,
  Bool-cases, Option-cases,
}
use gossip_mesh.Bootstrap.{NodeRegistration}
use gossip_mesh.Discovery.{
  Network, Step, join_step, punch_step, relay_step, relay_addr, serves_as_relay,
  try_memberlist_join, try_hole_punch, relay_loop, try_relay, connect_peer, connect_all,
  discover_and_connect,
}

-- Join is tried with the first address that the peer has registered, a hole punch where it has a public
-- address, and a relay that is registered as one, is neither of the two nodes and has an address, for a peer
-- that is no relay itself.
abbrev pub Fitting : String → Step → Type 0
Fitting self_id (join_step p a) = (more : List String) × (p.addrs ≡ a ∷ more)
Fitting self_id (punch_step p) = str_eq p.public_addr "" ≡ false
Fitting self_id (relay_step r a target) =
    (a ≡ relay_addr r) × (serves_as_relay self_id target r ≡ true) × (target.is_relay ≡ false)

abbrev pub target_of : Step → NodeRegistration
target_of (join_step p a) = p
target_of (punch_step p) = p
target_of (relay_step r a target) = target

abbrev pub Allowed : String → Step → Type 0
Allowed self_id step = Fitting self_id step × ((target_of step).node_id ≢ self_id)

module _ {M : Type 0} (net : Network M) (self_id : String) where
  module _ (peer : NodeRegistration) (other : peer.node_id ≢ self_id) where
    join-Allowed : (s : M) → All (Allowed self_id) (try_memberlist_join net self_id s peer).1.0
    unfolding try_memberlist_join
    join-Allowed s = at peer.addrs refl
      where
        at :
            (found : List String)
            → peer.addrs ≡ found
            → All (Allowed self_id) (try_memberlist_join net self_id s peer).1.0
        at [] e = rw (e, try_memberlist_join) tt
        at (a ∷ more) e = rw (e, try_memberlist_join) (((more, e), other), tt)

    punch-Allowed : (s : M) → All (Allowed self_id) (try_hole_punch net self_id s peer).1.0
    unfolding try_hole_punch
    punch-Allowed s = elim (Bool-cases (str_eq peer.public_addr "")) [
      | inl none_public ↦ rw (none_public, try_hole_punch) tt
      | inr public ↦ rw (public, try_hole_punch) ((public, other), tt)
    ]

    relay_loop-Allowed :
        (s : M) (ps : List NodeRegistration)
        → peer.is_relay ≡ false
        → All (Allowed self_id) (relay_loop net self_id s peer ps).1.0
    unfolding relay_loop
    relay_loop-Allowed s [] plain = tt
    relay_loop-Allowed s (p ∷ ps) plain = elim (Bool-cases (serves_as_relay self_id peer p)) [
      | inr unfit ↦ rw (unfit, relay_loop) (relay_loop-Allowed s ps plain)
      | inl fit ↦ elim (Bool-cases (net.dial_relay s (relay_addr p) peer).1) [
        | inl ok ↦ rw (fit, relay_loop, ok) (((refl, fit, plain), other), tt)
        | inr failed ↦
            rw (fit, relay_loop, failed)
              (
                ((refl, fit, plain), other),
                relay_loop-Allowed (net.dial_relay s (relay_addr p) peer).0 ps plain,
              )
      ]
    ]

    relay-Allowed : (s : M) → All (Allowed self_id) (try_relay net self_id s peer).1
    unfolding try_relay
    relay-Allowed s = elim (Bool-cases peer.is_relay) [
      | inl relay ↦ rw (relay, try_relay) tt
      | inr plain ↦ elim (Option-cases (net.discover s)) [
        | inl e ↦ rw (plain, try_relay, e) tt
        | inr (ps, e) ↦ rw (plain, try_relay, e) (relay_loop-Allowed s ps plain)
      ]
    ]

  connect_peer-Allowed :
      (s : M) (peer : NodeRegistration) → All (Allowed self_id) (connect_peer net self_id s peer).1
  unfolding connect_peer
  connect_peer-Allowed s peer =
      elim (Bool-cases (str_eq peer.node_id self_id || net.alive s peer.node_id)) [
        | inl skip ↦ rw (skip, connect_peer) tt
        | inr go ↦
            let other : peer.node_id ≢ self_id = λ same. not_self same go in
            let r1 = try_memberlist_join net self_id s peer in
            let r2 = try_hole_punch net self_id r1.0 peer in
            let joins = join-Allowed peer other s in
            let punches = punch-Allowed peer other r1.0 in
            rw (go, connect_peer)
              (if_both (λ (x : M × List Step). All (Allowed self_id) x.1) r1.1.1 _ _ joins
                (if_both (λ (x : M × List Step). All (Allowed self_id) x.1) r2.1.1 _ _
                  (All-append _ _ _ joins punches)
                  (All-append _ _ _ (All-append _ _ _ joins punches)
                    (relay-Allowed peer other r2.0))))
      ]
    where
      not_self :
          peer.node_id ≡ self_id
          → (str_eq peer.node_id self_id || net.alive s peer.node_id) ≡ false
          → ⊥
      not_self same go = ground (arith, (eq_iff peer.node_id self_id).1 same, go)

  connect_all-Allowed :
      (s : M) (ps : List NodeRegistration) → All (Allowed self_id) (connect_all net self_id s ps).1
  unfolding connect_all
  connect_all-Allowed s [] = tt
  connect_all-Allowed s (p ∷ ps) =
      All-append _ _ _ (connect_peer-Allowed s p)
        (connect_all-Allowed (connect_peer net self_id s p).0 ps)

  -- Whatever the network answers, discoverAndConnect tries nothing with the node itself; it joins a peer at the
  -- first address that the peer registered, punches only towards a public address, and asks only a
  -- registered relay that has an address and is neither of the two nodes, for a peer that is no relay.
  pub discover_and_connect-Allowed :
      (s : M) → All (Allowed self_id) (discover_and_connect net self_id s).1
  unfolding discover_and_connect
  discover_and_connect-Allowed s = elim (Option-cases (net.discover s)) [
    | inl e ↦ rw (e, discover_and_connect) tt
    | inr (ps, e) ↦ rw (e, discover_and_connect) (connect_all-Allowed s ps)
  ]

  -- A peer that is alive, and one that Join reaches, costs no hole punch and no relay; the other steps for
  -- one peer are tried in the order of Join, hole punch and relays.
  pub connect_peer_order :
      (s : M) (peer : NodeRegistration)
      → let (r, steps) = connect_peer net self_id s peer in
        let joined = try_memberlist_join net self_id s peer in
        let punched = try_hole_punch net self_id joined.0 peer in
        (net.alive s peer.node_id ≡ true → steps ≡ [])
        × (peer.node_id ≢ self_id
            → net.alive s peer.node_id ≡ false
            → joined.1.1 ≡ true
            → steps ≡ joined.1.0)
        × (peer.node_id ≢ self_id
            → net.alive s peer.node_id ≡ false
            → joined.1.1 ≡ false
            → punched.1.1 ≡ false
            → steps ≡ joined.1.0 ++ punched.1.0 ++ (try_relay net self_id punched.0 peer).1)
  unfolding connect_peer
  connect_peer_order s peer =
      let self_iff = eq_iff peer.node_id self_id in
      (
        λ alive. ground (arith, alive),
        λ other dead ok. ground (arith, self_iff, other, dead, ok),
        λ other dead no_join no_punch. ground (arith, self_iff, other, dead, no_join, no_punch),
      )
