-- ===== src/Discovery/Registered.antt =====
-- What nodes that registered themselves can do for each other (s3nat/s3nat.go).
use Prim.Native.String.{String}
use text.Mathlib.Text.{◌==◌ as str_eq}
use gossip_mesh.Base.{
  ℕ, ◌≡◌, refl, ap, false, ◌||◌, some, List, [], ◌∷◌, inl, inr, All, All-append, if_both,
  Bool-cases, Option-cases,
}
use gossip_mesh.Bootstrap.{NodeRegistration, stamped}
use gossip_mesh.Discovery.{
  Network, Step, join_step, punch_step, relay_step, own_registration, serves_as_relay,
  try_memberlist_join, try_hole_punch, relay_loop, try_relay, connect_peer, connect_all,
  discover_and_connect,
}

-- The registration is one that Start of some node has made, at some time.
abbrev pub Registered : NodeRegistration → Type 0
Registered p =
    (id : String) × (bind_addr : String) × (app_addr : String) × (now : ℕ) × (p
      ≡ stamped now (own_registration id bind_addr app_addr))

abbrev pub JoinOnly : Step → Type 0
JoinOnly (join_step p a) = Unit
JoinOnly (punch_step p) = ⊥
JoinOnly (relay_step r a target) = ⊥

own_fields : (p : NodeRegistration) → Registered p → (p.public_addr ≡ "") × (p.is_relay ≡ false)
unfolding own_registration
own_fields p (id, bind_addr, app_addr, now, e) = (ap (λ r. r.public_addr) e, ap (λ r. r.is_relay) e)

module _ {M : Type 0} (net : Network M) (self_id : String)
    (registered : (s : M) (ps : List NodeRegistration)
      → net.discover s ≡ some ps
      → All Registered ps) where
  tried-JoinOnly :
      (s : M) (peer : NodeRegistration) → All JoinOnly (try_memberlist_join net self_id s peer).1.0
  unfolding try_memberlist_join
  tried-JoinOnly s peer = tried peer.addrs refl
    where
      tried :
          (found : List String)
          → peer.addrs ≡ found
          → All JoinOnly (try_memberlist_join net self_id s peer).1.0
      tried [] e = rw (e, try_memberlist_join) tt
      tried (a ∷ more) e = rw (e, try_memberlist_join) (tt, tt)

  punch_none :
      (s : M) (peer : NodeRegistration)
      → peer.public_addr ≡ ""
      → try_hole_punch net self_id s peer ≡ (s, ([], false))
  unfolding try_hole_punch
  punch_none s peer e = rw e refl

  relay_loop_none :
      (s : M) (target : NodeRegistration) (ps : List NodeRegistration)
      → All Registered ps
      → (relay_loop net self_id s target ps).1.0 ≡ []
  unfolding relay_loop
  relay_loop_none s target [] a = refl
  relay_loop_none s target (p ∷ ps) a =
      let plain = (own_fields p a.0).1 in
      let unfit : serves_as_relay self_id target p ≡ false = rw plain refl in
      rw (unfit, relay_loop) (relay_loop_none s target ps a.1)

  relay_none : (s : M) (target : NodeRegistration) → (try_relay net self_id s target).1 ≡ []
  unfolding try_relay
  relay_none s target = elim (Bool-cases target.is_relay) [
    | inl e ↦ rw (e, try_relay) refl
    | inr e ↦ elim (Option-cases (net.discover s)) [
      | inl n ↦ rw (e, try_relay, n) refl
      | inr (ps, n) ↦ rw (e, try_relay, n) (relay_loop_none s target ps (registered s ps n))
    ]
  ]

  peer-JoinOnly :
      (s : M) (peer : NodeRegistration)
      → Registered peer
      → All JoinOnly (connect_peer net self_id s peer).1
  unfolding connect_peer
  peer-JoinOnly s peer reg =
      let r1 = try_memberlist_join net self_id s peer in
      let r2 = try_hole_punch net self_id r1.0 peer in
      let joins = tried-JoinOnly s peer in
      let punches : All JoinOnly r2.1.0 = rw (punch_none r1.0 peer (own_fields peer reg).0) tt in
      let relays : All JoinOnly (try_relay net self_id r2.0 peer).1 =
        rw (relay_none r2.0 peer) tt in
      let both = All-append _ _ _ joins punches in
      if_both (λ (x : M × List Step). All JoinOnly x.1)
        (str_eq peer.node_id self_id || net.alive s peer.node_id) _ _ tt
        (if_both (λ (x : M × List Step). All JoinOnly x.1) r1.1.1 _ _ joins
          (if_both (λ (x : M × List Step). All JoinOnly x.1) r2.1.1 _ _ both
            (All-append _ _ _ both relays)))

  peers-JoinOnly :
      (s : M) (ps : List NodeRegistration)
      → All Registered ps
      → All JoinOnly (connect_all net self_id s ps).1
  unfolding connect_all
  peers-JoinOnly s [] a = tt
  peers-JoinOnly s (p ∷ ps) a =
      All-append _ _ _ (peer-JoinOnly s p a.0)
        (peers-JoinOnly (connect_peer net self_id s p).0 ps a.1)

  -- Between nodes whose registrations Start has made, discoverAndConnect never gets beyond Join: no hole punch
  -- is tried and no relay is asked, whatever the network answers.
  pub discover_and_connect-JoinOnly : (s : M) → All JoinOnly (discover_and_connect net self_id s).1
  unfolding discover_and_connect
  discover_and_connect-JoinOnly s = elim (Option-cases (net.discover s)) [
    | inl e ↦ rw (e, discover_and_connect) tt
    | inr (ps, e) ↦ rw (e, discover_and_connect) (peers-JoinOnly s ps (registered s ps e))
  ]
