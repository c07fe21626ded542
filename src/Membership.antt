-- ===== src/Membership.antt =====
-- membership/: the table of members (membership.go), the events that memberlist reports (events.go), the
-- node's own metadata (delegate.go, meta.go) and the coordinates carried by pings (ping.go). memberlist, the
-- Vivaldi client and encoding/json are not part of the repository: what the code asks of them is the
-- record `Services`, over a type `V` of states of the client and a type `C` of coordinates. A port is a number.
pub mod View
pub mod Live
pub mod Meta
pub mod Announce
pub mod Examples
use Prim.Native.String.{String}
use gossip_mesh.Base.{
  ℕ, Bool, true, false, Option, none, some, List, [], ◌∷◌, ◌++◌, ltb, length, if◌then◌else◌, ◌&&◌,
}
use gossip_mesh.Base.Table.{string_key, lookup, insert, delete}

pub record NodeMeta (C : Type 0) : Type 0 where
  pub node_id : String
  pub vivaldi_coord : Option C
  pub quic_addr : String
  pub quic_port : ℕ
  pub app_data : List ℕ

pub record PeerInfo (C : Type 0) : Type 0 where
  pub node_id : String
  pub addr : String
  pub meta : NodeMeta C
  pub rtt : ℕ
  pub alive : Bool

-- memberlist.Node.
pub record Node : Type 0 where
  pub name : String
  pub addr : String
  pub meta : List ℕ

-- The Vivaldi client, json.Marshal and json.Unmarshal for the metadata and for coordinates, the order in
-- which a range goes through the table, and net.JoinHostPort of an address and the port's digits.
pub record Services (V C : Type 0) : Type 0 where
  pub distance_to : V → C → ℕ
  pub forget_node : V → String → V
  pub get_coordinate : V → C
  pub is_valid : C → Bool
  pub update : V → String → C → ℕ → V × Bool
  pub marshal : NodeMeta C → Option (List ℕ)
  pub unmarshal : List ℕ → Option (NodeMeta C)
  pub marshal_coordinate : C → Option (List ℕ)
  pub unmarshal_coordinate : List ℕ → Option C
  pub range : List (PeerInfo C) → List (PeerInfo C)
  pub join_host_port : String → ℕ → String

-- Of the callbacks only whether they are set; their calls are results of the operations.
pub record Membership (V C : Type 0) : Type 0 where
  pub meta : NodeMeta C
  pub vivaldi : V
  pub on_change : Bool
  pub on_leave : Bool
  pub peers : List (String × PeerInfo C)

-- A call of a callback.
pub data Notice (C : Type 0) : Type 0 where
  changed : List (PeerInfo C) → Notice C
  left : String → Notice C

pub data Event : Type 0 where
  node_join node_leave node_update : Node → Event

module _ {V C : Type 0} (sv : Services V C) where
  abbrev pub alive_of : List (String × PeerInfo C) → List (PeerInfo C)
  alive_of [] = []
  alive_of ((name, p) ∷ m) = if p.alive then p ∷ alive_of m else alive_of m

  abbrev pub live_peers : Membership V C → List (PeerInfo C)
  live_peers m = sv.range (alive_of m.peers)

  abbrev pub notify_change : Membership V C → List (Notice C)
  notify_change m = if m.on_change then changed (live_peers m) ∷ [] else []

  abbrev pub rtt_to : V → NodeMeta C → ℕ
  rtt_to v meta = elim meta.vivaldi_coord [
    | none ↦ 0
    | some c ↦ if sv.is_valid c then sv.distance_to v c else 0
  ]

  abbrev pub info_of : V → Node → NodeMeta C → PeerInfo C
  info_of v node meta = record {
    node_id = node.name;
    addr = node.addr;
    meta = meta;
    rtt = rtt_to v meta;
    alive = true;
  }

  -- NotifyJoin and NotifyUpdate, whose bodies are the same.
  unfoldable pub notify_join : Membership V C → Node → Membership V C × List (Notice C)
  notify_join m node = elim (sv.unmarshal node.meta) [
    | none ↦ (m, [])
    | some meta ↦
        let m' : Membership V C = record m {
          peers = insert node.name (info_of m.vivaldi node meta) m.peers;
        } in
        (m', notify_change m')
  ]

  unfoldable pub notify_leave : Membership V C → Node → Membership V C × List (Notice C)
  notify_leave m node =
      let m' : Membership V C = record m {
        vivaldi = sv.forget_node m.vivaldi node.name;
        peers = delete node.name m.peers;
      } in
      (m', (if m.on_leave then left node.name ∷ [] else []) ++ notify_change m')

  unfoldable pub handle_event : Membership V C → Event → Membership V C × List (Notice C)
  handle_event m (node_join node) = notify_join m node
  handle_event m (node_leave node) = notify_leave m node
  handle_event m (node_update node) = notify_join m node

  unfoldable pub handle_events : Membership V C → List Event → Membership V C × List (Notice C)
  handle_events m [] = (m, [])
  handle_events m (e ∷ es) =
      let (m1, first) = handle_event m e in
      let (m2, rest) = handle_events m1 es in (m2, first ++ rest)

  abbrev pub set_on_change : Membership V C → Membership V C
  set_on_change m = record m { on_change = true }

  abbrev pub set_on_leave : Membership V C → Membership V C
  set_on_leave m = record m { on_leave = true }

  unfoldable pub is_alive : Membership V C → String → Bool
  is_alive m id = elim (lookup id m.peers) [ none ↦ false | some p ↦ p.alive ]

  unfoldable pub addr_for_node : Membership V C → String → String
  addr_for_node m id = elim (lookup id m.peers) [
    | none ↦ ""
    | some p ↦ if p.alive then sv.join_host_port p.meta.quic_addr p.meta.quic_port else ""
  ]

  -- UpdateMeta by a caller that no other interrupts.
  abbrev pub update_meta : Membership V C → (NodeMeta C → NodeMeta C) → Membership V C
  update_meta m fn = record m { meta = fn m.meta }

  -- The delegate's NodeMeta: the bytes that the node announces, none of them if they are too many.
  unfoldable pub node_meta : NodeMeta C → ℕ → List ℕ
  node_meta meta limit = elim (sv.marshal meta) [
    | none ↦ []
    | some bytes ↦ if ltb limit (length bytes) then [] else bytes
  ]

  unfoldable pub ack_payload : Membership V C → List ℕ
  ack_payload m = elim (sv.marshal_coordinate (sv.get_coordinate m.vivaldi)) [
    | none ↦ []
    | some bytes ↦ bytes
  ]

  unfoldable pub notify_ping_complete : Membership V C → Node → ℕ → List ℕ → Membership V C
  notify_ping_complete m other rtt payload = elim (sv.unmarshal_coordinate payload) [
    | none ↦ m
    | some coord ↦
        let (v, ok) = sv.update m.vivaldi other.name coord rtt in
        let m' : Membership V C = record m { vivaldi = v } in
        if sv.is_valid coord
        then (if ok
            then update_meta m' (λ meta. record meta { vivaldi_coord = some (sv.get_coordinate v) })
            else m')
        else m
  ]
