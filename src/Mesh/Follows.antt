-- ===== src/Mesh/Follows.antt =====
-- The overlay of a running node against its table of members (mesh/mesh.go).
use Prim.Native.String.{String}
use gossip_mesh.Base.{
  ◌+◌, ◌≡◌, ◌≢◌, refl, sym, ap, subst, ◌∙◌, ◌⊎◌, arith, Bool, true, false, some, List, [], ◌∷◌, map,
  length, inl, inr, All, All-map, min, Bool-cases, Option-cases,
}
use gossip_mesh.Base.Table.{string_key, lookup}
use gossip_mesh.Membership.{
  Services, Membership, Notice, changed, left, Node, Event, node_join, node_leave, node_update,
  notify_join, notify_leave, handle_event, live_peers, is_alive, addr_for_node, set_on_change,
}
use gossip_mesh.Membership as Members
use gossip_mesh.Membership.Live.{Visits, live_peers-Found}
use gossip_mesh.Membership.View.{
  IsTable, answers, meta_in, known_alive, address, handle_event-IsTable,
}
use gossip_mesh.Overlay.{Overlay, OverlayPeer, PeerInfo, reclassify, without_self, peer_count}
use gossip_mesh.Overlay.Reclassify.{Sorts, FromPeer}
use gossip_mesh.Overlay.Budget.{reclassify_from, reclassify_counts}
use gossip_mesh.Mesh.{Mesh, overlay_peer, take_notices, mesh_event, mesh_run, wire_overlay}

All-image :
    {A B : Type 0} (f : A → B) (P : A → Type 0) (Q : B → Type 0)
    → ((a : A) → P a → Q (f a))
    → (xs : List A) → All P xs
    → All Q (map f xs)
All-image f P Q imp [] h = tt
All-image f P Q imp (x ∷ xs) h = (imp x h.0, All-image f P Q imp xs h.1)

module _ {V C : Type 0} (sv : Services V C) (sort_by_rtt : List PeerInfo → List PeerInfo) where
  -- A peer of the overlay is another member that is alive, with the address that the membership has for it.
  abbrev pub Current : Membership V C → String → OverlayPeer → Type 0
  Current m self q =
      (q.node_id ≢ self)
      × (is_alive sv m q.node_id ≡ true)
      × (addr_for_node sv m q.node_id ≡ q.addr)

  abbrev pub others : Membership V C → String → List PeerInfo
  others m self = without_self self (map (overlay_peer sv sort_by_rtt) (live_peers sv m))

  -- Every peer of the overlay is current, and there are as many as others are alive, up to the budget.
  pub record Follows (s : Mesh V C) : Type 0 where
    pub eager_current : All (Current s.membership s.overlay.self) s.overlay.eager_peers
    pub lazy_current : All (Current s.membership s.overlay.self) s.overlay.lazy_peers
    pub full :
        peer_count s.overlay
        ≡ min
            (length (others s.membership s.overlay.self))
            (s.overlay.cfg.max_eager + s.overlay.cfg.max_lazy)

  self-reclassify :
      (o : Overlay) (ps : List PeerInfo)
      → ((reclassify sort_by_rtt o ps).self ≡ o.self) × ((reclassify sort_by_rtt o ps).cfg ≡ o.cfg)
  unfolding reclassify
  self-reclassify o ps = ground arith

  -- What the overlay is told of a member.
  abbrev Told : Membership V C → PeerInfo → Type 0
  Told m p = (is_alive sv m p.node_id ≡ true) × (addr_for_node sv m p.node_id ≡ p.addr)

  found-Told :
      (m : Membership V C) (p : Members.PeerInfo C)
      → IsTable sv m
      → lookup p.node_id m.peers ≡ some p
      → Told m (overlay_peer sv sort_by_rtt p)
  found-Told m p v found =
      let (alive, addr) = answers sv m p.node_id v in
      (
        alive ∙ ap (λ o. known_alive sv (meta_in sv o)) found,
        addr ∙ ap (λ o. address sv (meta_in sv o)) found,
      )

  classified-Current :
      (m : Membership V C) (self : String) (want : Bool) (q : OverlayPeer)
      → FromPeer (λ (p : PeerInfo). Told m p × (p.node_id ≢ self)) want q
      → Current m self q
  classified-Current m self want q (_, (p, (told, other), e)) =
      subst (Current m self) (sym e) (other, told.0, told.1)

  -- An event that cannot be read changes nothing and calls no callback; any other makes the overlay what
  -- the live peers after it give.
  abbrev Noticed : Membership V C → Membership V C × List (Notice C) → Type 0
  Noticed m (m', notices) =
      ((m' ≡ m) × (notices ≡ []))
      ⊎ (((o : Overlay)
            → take_notices sv sort_by_rtt o notices
              ≡ reclassify sort_by_rtt o (map (overlay_peer sv sort_by_rtt) (live_peers sv m')))
          × (m'.on_change ≡ true))

  notify_join_notices :
      (m : Membership V C) (node : Node) → m.on_change ≡ true → Noticed m (notify_join sv m node)
  unfolding notify_join
  notify_join_notices m node on = elim (Option-cases (sv.unmarshal node.meta)) [
    | inl e ↦ rw (e, notify_join) (inl (refl, refl))
    | inr (meta, e) ↦ rw (e, notify_join) (inr (λ o. rw on refl, on))
  ]

  handle_event_notices :
      (m : Membership V C) (e : Event) → m.on_change ≡ true → Noticed m (handle_event sv m e)
  unfolding handle_event notify_leave
  handle_event_notices m (node_join node) on = notify_join_notices m node on
  handle_event_notices m (node_update node) on = notify_join_notices m node on
  handle_event_notices m (node_leave node) on =
      inr (λ o. rw on (elim (Bool-cases m.on_leave) [ inl l ↦ rw l refl | inr l ↦ rw l refl ]), on)

  module _ (sorts : Sorts sort_by_rtt) (visits : Visits sv.range) where
    abbrev reclassified : Membership V C → Overlay → Mesh V C
    reclassified m o = record {
      membership = m;
      overlay = reclassify sort_by_rtt o (map (overlay_peer sv sort_by_rtt) (live_peers sv m));
    }

    reclassified-Follows :
        (m : Membership V C) (o : Overlay) → IsTable sv m → Follows (reclassified m o)
    unfolding reclassify
    reclassified-Follows m o v =
        let ps = map (overlay_peer sv sort_by_rtt) (live_peers sv m) in
        let listed : All (Told m) ps =
          All-image (overlay_peer sv sort_by_rtt) _ (Told m) (λ p found. found-Told m p v found)
            (live_peers sv m) (live_peers-Found sv m visits v) in
        let (eager, lazy) = reclassify_from sort_by_rtt sorts (Told m) o ps listed in
        let (same_self, same_cfg) = self-reclassify o ps in
        let keeps : (self : String)
            → self ≡ o.self
            → (want : Bool) (q : OverlayPeer)
            → FromPeer (λ (p : PeerInfo). Told m p × (p.node_id ≢ o.self)) want q
            → Current m self q =
          λ self e want q from. classified-Current m self want q (
            subst (λ x. FromPeer (λ (p : PeerInfo). Told m p × (p.node_id ≢ x)) want q) (sym e)
              from) in
        record {
          eager_current = All-map _ _ (keeps _ same_self true) _ eager;
          lazy_current = All-map _ _ (keeps _ same_self false) _ lazy;
          full = rw (same_self, same_cfg) (reclassify_counts sort_by_rtt sorts o ps).0;
        }

    mesh_event-Follows :
        (s : Mesh V C) (e : Event)
        → s.membership.on_change ≡ true
        → IsTable sv s.membership
        → Follows s
        → Follows (mesh_event sv sort_by_rtt s e)
          × ((mesh_event sv sort_by_rtt s e).membership.on_change ≡ true)
    unfolding mesh_event
    mesh_event-Follows s e on v f = elim (handle_event_notices s.membership e on) [
      | inl (same, quiet) ↦ rw (same, quiet, mesh_event) (f, on)
      | inr (told, on') ↦
          rw (told s.overlay, mesh_event)
            (
              reclassified-Follows (handle_event sv s.membership e).0 s.overlay
                  (handle_event-IsTable sv s.membership e v),
              on',
            )
    ]

    -- If the sort keeps the peers and a range visits every member, the callback for changes is set and the table
    -- of members has one entry for a node, under the node's own id, then a node whose overlay follows its table
    -- goes on so through any events: every peer of the overlay is another node that IsAlive calls
    -- alive, under the address that AddrForNode gives, and the overlay has as many peers as
    -- others are alive, up to its budget.
    pub mesh_run-Follows :
        (s : Mesh V C) (es : List Event)
        → s.membership.on_change ≡ true
        → IsTable sv s.membership
        → Follows s
        → Follows (mesh_run sv sort_by_rtt s es)
    unfolding mesh_run mesh_event
    mesh_run-Follows s [] on v f = f
    mesh_run-Follows s (e ∷ es) on v f =
        let (f', on') = mesh_event-Follows s e on v f in
        mesh_run-Follows (mesh_event sv sort_by_rtt s e) es on'
          (handle_event-IsTable sv s.membership e v) f'

  silent :
      (m : Membership V C) (e : Event) (o : Overlay)
      → m.on_change ≡ false
      → (take_notices sv sort_by_rtt o (handle_event sv m e).1 ≡ o)
        × ((handle_event sv m e).0.on_change ≡ false)
  unfolding handle_event notify_leave notify_join
  silent m (node_join node) o off = ground (arith, off)
  silent m (node_update node) o off = ground (arith, off)
  silent m (node_leave node) o off = ground (arith, off)

  -- Whatever members the events before Join's call of SetOnChange have brought, the overlay is after that
  -- call what it was before the events.
  pub wire_overlay_late :
      (s : Mesh V C) (es : List Event)
      → s.membership.on_change ≡ false
      → (wire_overlay sv sort_by_rtt (mesh_run sv sort_by_rtt s es)).overlay ≡ s.overlay
  unfolding mesh_run mesh_event
  wire_overlay_late s [] off = refl
  wire_overlay_late s (e ∷ es) off =
      let (same, off') = silent s.membership e s.overlay off in
      wire_overlay_late (mesh_event sv sort_by_rtt s e) es off' ∙ same
