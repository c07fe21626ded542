-- ===== src/Membership/Examples.antt =====
-- A table with two members, whose metadata is encoded as the port alone.
use gossip_mesh.Base.{ℕ, ◌+◌, ◌≡◌, true, false, Option, none, some, List, [], ◌∷◌, if◌then◌else◌}
use gossip_mesh.Base.Table.{string_key}
use gossip_mesh.Membership.{
  NodeMeta, Node, Services, Membership, node_join, node_leave, handle_events, is_alive,
  addr_for_node, Event,
}
use gossip_mesh.Membership.Live.{Visits}
use gossip_mesh.Membership.View.{
  IsTable, handle_events_lem, known_alive, address, last_heard, meta_of,
}
use gossip_mesh.Membership.Meta.{
  updaters_run, updaters_start, replay, count, has_swapped, updaters_run_lem,
}

abbrev pub port_meta : ℕ → NodeMeta ℕ
port_meta port = record {
  node_id = "";
  vivaldi_coord = none;
  quic_addr = "10.0.0.7";
  quic_port = port;
  app_data = [];
}

abbrev first_port : List ℕ → Option (NodeMeta ℕ)
first_port [] = none
first_port (port ∷ rest) = some (port_meta port)

abbrev first_byte : List ℕ → Option ℕ
first_byte [] = none
first_byte (c ∷ rest) = some c

abbrev pub plain : Services ℕ ℕ
plain = record {
  distance_to = λ v c. v + c;
  forget_node = λ v id. v;
  get_coordinate = λ v. v;
  is_valid = λ c. true;
  update = λ v id c rtt. (c, true);
  marshal = λ meta. some (meta.quic_port ∷ []);
  unmarshal = first_port;
  marshal_coordinate = λ c. some (c ∷ []);
  unmarshal_coordinate = first_byte;
  range = λ ps. ps;
  join_host_port = λ host port. host;
}

abbrev pub visits_plain : Visits plain.range
visits_plain = record { each = λ P xs a. a; every = λ P xs a. a }

abbrev pub no_members : Membership ℕ ℕ
no_members = record {
  meta = port_meta 7001;
  vivaldi = 0;
  on_change = true;
  on_leave = false;
  peers = [];
}

abbrev pub node_b : Node
node_b = record { name = "b"; addr = "10.0.0.2"; meta = 7002 ∷ [] }

abbrev node_c : Node
node_c = record { name = "c"; addr = "10.0.0.3"; meta = 7003 ∷ [] }

abbrev pub three_events : List Event
three_events = node_join node_b ∷ node_join node_c ∷ node_leave node_b ∷ []

abbrev pub no_members-IsTable : IsTable plain no_members
no_members-IsTable = record { one = tt; own = tt }

handle_events_lem_example :
    let m' = (handle_events plain no_members three_events).0 in
    (is_alive plain m' "c"
      ≡ known_alive plain (last_heard plain (meta_of plain no_members "c") "c" three_events))
    × (addr_for_node plain m' "c"
        ≡ address plain (last_heard plain (meta_of plain no_members "c") "c" three_events))
handle_events_lem_example = handle_events_lem plain no_members three_events "c" no_members-IsTable

-- Caller 1 swaps between the load and the swap of caller 0, which goes round again.
abbrev retried : List ℕ
retried = 0 ∷ 1 ∷ 1 ∷ 0 ∷ 0 ∷ 0 ∷ []

updaters_run_lem_example :
    let r = updaters_run (λ i n. n + i) (updaters_start (λ i n. n + i) 5) retried in
    (r.cell.heap r.cell.current ≡ replay (λ i n. n + i) 5 r.log)
    × (count (λ i (n : ℕ). n + i) 0 r.log
        ≡ (if has_swapped (λ i (n : ℕ). n + i) (r.pcs 0) then 1 else 0))
updaters_run_lem_example = updaters_run_lem (λ i n. n + i) 5 retried 0
