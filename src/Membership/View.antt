-- ===== src/Membership/View.antt =====
-- The table of members after a sequence of events, against the metadata last heard of each node
-- (membership/events.go, membership/membership.go).
use Prim.Native.String.{String}
use text.Mathlib.Text.{◌==◌ as str_eq}
use gossip_mesh.Base.{
  ◌≡◌, refl, ap, ◌∙◌, Bool, true, false, Option, none, some, List, [], ◌∷◌, inl, inr, All,
  if◌then◌else◌, Option-cases,
}
use gossip_mesh.Base.Table.{
  string_key, lookup, lookup-insert, lookup-delete, IsMap, insert-IsMap, delete-IsMap, All-insert,
  All-delete, lookup-All,
}
use gossip_mesh.Membership.{
  NodeMeta, PeerInfo, Node, Services, Membership, Event, node_join, node_leave, node_update,
  info_of, notify_join, notify_leave, handle_event, handle_events, is_alive, addr_for_node,
}

module _ {V C : Type 0} (sv : Services V C) where
  abbrev pub Own : String × PeerInfo C → Type 0
  Own e = (e.1.node_id ≡ e.0) × (e.1.alive ≡ true)

  -- One entry for a key, under the node's name, and every peer in the table is alive.
  pub record IsTable (m : Membership V C) : Type 0 where
    pub one : IsMap m.peers
    pub own : All Own m.peers

  -- The metadata that the table has for a node.
  abbrev pub meta_in : Option (PeerInfo C) → Option (NodeMeta C)
  meta_in none = none
  meta_in (some p) = some p.meta

  abbrev pub meta_of : Membership V C → String → Option (NodeMeta C)
  meta_of m id = meta_in (lookup id m.peers)

  -- The reference: a node's metadata is the last one that was announced and could be decoded, as long as
  -- the node has not left since.
  abbrev pub heard : Option (NodeMeta C) → String → Event → Option (NodeMeta C)
  heard known id e =
      let announced : Node → Option (NodeMeta C) =
        λ node. elim (sv.unmarshal node.meta) [ none ↦ known | some meta ↦ some meta ] in
      elim e [
        | node_join node ↦ if str_eq node.name id then announced node else known
        | node_update node ↦ if str_eq node.name id then announced node else known
        | node_leave node ↦ if str_eq node.name id then none else known
      ]

  abbrev pub last_heard : Option (NodeMeta C) → String → List Event → Option (NodeMeta C)
  last_heard known id [] = known
  last_heard known id (e ∷ es) = last_heard (heard known id e) id es

  notify_join-IsTable :
      (m : Membership V C) (node : Node) → IsTable m → IsTable (notify_join sv m node).0
  unfolding notify_join
  notify_join-IsTable m node v = elim (Option-cases (sv.unmarshal node.meta)) [
    | inl e ↦ rw (e, notify_join) v
    | inr (meta, e) ↦
        rw (e, notify_join)
          (record {
            one = insert-IsMap node.name (info_of sv m.vivaldi node meta) m.peers v.one;
            own =
                All-insert Own node.name (info_of sv m.vivaldi node meta) m.peers (refl, refl)
                  v.own;
          })
  ]

  pub handle_event-IsTable :
      (m : Membership V C) (e : Event) → IsTable m → IsTable (handle_event sv m e).0
  unfolding handle_event notify_leave
  handle_event-IsTable m (node_join node) v = notify_join-IsTable m node v
  handle_event-IsTable m (node_update node) v = notify_join-IsTable m node v
  handle_event-IsTable m (node_leave node) v = record {
    one = delete-IsMap node.name m.peers v.one;
    own = All-delete Own node.name m.peers v.own;
  }

  meta_in-if :
      (b : Bool) (p : PeerInfo C) (o : Option (PeerInfo C))
      → meta_in (if b then some p else o) ≡ (if b then some p.meta else meta_in o)
  meta_in-if true p o = refl
  meta_in-if false p o = refl

  meta_in-none :
      (b : Bool) (o : Option (PeerInfo C))
      → meta_in (if b then none else o) ≡ (if b then none else meta_in o)
  meta_in-none true o = refl
  meta_in-none false o = refl

  same_if : (b : Bool) (o : Option (NodeMeta C)) → o ≡ (if b then o else o)
  same_if true o = refl
  same_if false o = refl

  notify_join-meta_of :
      (m : Membership V C) (node : Node) (id : String)
      → meta_of (notify_join sv m node).0 id ≡ (
          if str_eq node.name id
          then elim (sv.unmarshal node.meta) [ none ↦ meta_of m id | some meta ↦ some meta ]
          else meta_of m id)
  unfolding notify_join
  notify_join-meta_of m node id = elim (Option-cases (sv.unmarshal node.meta)) [
    | inl e ↦ rw (e, notify_join) (same_if (str_eq node.name id) (meta_of m id))
    | inr (meta, e) ↦
        rw (e, notify_join)
          (ap meta_in (lookup-insert node.name id (info_of sv m.vivaldi node meta) m.peers)
            ∙ meta_in-if (str_eq node.name id) (info_of sv m.vivaldi node meta) (lookup id m.peers))
  ]

  handle_event-heard :
      (m : Membership V C) (e : Event) (id : String)
      → IsTable m
      → meta_of (handle_event sv m e).0 id ≡ heard (meta_of m id) id e
  unfolding handle_event notify_leave
  handle_event-heard m (node_join node) id v = notify_join-meta_of m node id
  handle_event-heard m (node_update node) id v = notify_join-meta_of m node id
  handle_event-heard m (node_leave node) id v =
      ap meta_in (lookup-delete node.name id m.peers v.one)
      ∙ meta_in-none (str_eq node.name id) (lookup id m.peers)

  pub handle_events-IsTable :
      (m : Membership V C) (es : List Event) → IsTable m → IsTable (handle_events sv m es).0
  unfolding handle_events
  handle_events-IsTable m [] v = v
  handle_events-IsTable m (e ∷ es) v =
      handle_events-IsTable (handle_event sv m e).0 es (handle_event-IsTable m e v)

  pub handle_events-last_heard :
      (m : Membership V C) (es : List Event) (id : String)
      → IsTable m
      → meta_of (handle_events sv m es).0 id ≡ last_heard (meta_of m id) id es
  unfolding handle_events
  handle_events-last_heard m [] id v = refl
  handle_events-last_heard m (e ∷ es) id v =
      handle_events-last_heard (handle_event sv m e).0 es id (handle_event-IsTable m e v)
      ∙ ap (λ known. last_heard known id es) (handle_event-heard m e id v)

  -- What IsAlive and AddrForNode say of a node whose metadata is known, or not.
  abbrev pub address : Option (NodeMeta C) → String
  address none = ""
  address (some meta) = sv.join_host_port meta.quic_addr meta.quic_port

  abbrev pub known_alive : Option (NodeMeta C) → Bool
  known_alive none = false
  known_alive (some meta) = true

  pub answers :
      (m : Membership V C) (id : String)
      → IsTable m
      → (is_alive sv m id ≡ known_alive (meta_of m id))
        × (addr_for_node sv m id ≡ address (meta_of m id))
  unfolding is_alive addr_for_node
  answers m id v = elim (Option-cases (lookup id m.peers)) [
    | inl e ↦ rw (e, is_alive, addr_for_node) (refl, refl)
    | inr (p, e) ↦
        let alive : p.alive ≡ true = (lookup-All Own id p m.peers v.own e).1 in
        rw (e, is_alive, addr_for_node, alive) (refl, refl)
  ]

  -- After any events on a table that is well formed, IsAlive and AddrForNode answer for every node as the
  -- metadata does that was last heard of it: one that left, or that no readable announcement named,
  -- is not alive and has no address.
  pub handle_events_lem :
      (m : Membership V C) (es : List Event) (id : String)
      → IsTable m
      → let m' = (handle_events sv m es).0 in
        (is_alive sv m' id ≡ known_alive (last_heard (meta_of m id) id es))
        × (addr_for_node sv m' id ≡ address (last_heard (meta_of m id) id es))
  handle_events_lem m es id v =
      let m' = (handle_events sv m es).0 in
      let (alive, addr) = answers m' id (handle_events-IsTable m es v) in
      let seen = handle_events-last_heard m es id v in
      (alive ∙ ap known_alive seen, addr ∙ ap address seen)
