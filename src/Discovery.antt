-- ===== src/Discovery.antt =====
-- s3nat/s3nat.go: the extension that connects to the peers registered in the object store which gossip has not
-- reached. The store, the membership and the network are one state `M`, and what the code asks of them is the
-- record `Network`; each thing that is tried is kept, in order, as a step.
pub mod Escalation
pub mod Relays
pub mod Registered
pub mod Lifecycle
pub mod Examples
use Prim.Native.String.{String}
use text.Mathlib.Text.{◌==◌ as str_eq}
use gossip_mesh.Base.{
  Bool, true, false, not, ◌||◌, Option, none, some, List, [], ◌∷◌, ◌++◌, if◌then◌else◌,
}
use gossip_mesh.Bootstrap.{NodeRegistration}

-- DiscoverPeers, IsAlive, Join with one address, AttemptHolePunch with what hands its connection to the
-- transport and to the membership, and DialViaRelay with a relay's address.
pub record Network (M : Type 0) : Type 0 where
  pub discover : M → Option (List NodeRegistration)
  pub alive : M → String → Bool
  pub join : M → String → M × Bool
  pub punch : M → NodeRegistration → M × Bool
  pub dial_relay : M → String → NodeRegistration → M × Bool

pub data Step : Type 0 where
  join_step : NodeRegistration → String → Step
  punch_step : NodeRegistration → Step
  -- The relay, its address, and the target.
  relay_step : NodeRegistration → String → NodeRegistration → Step

abbrev pub relay_addr : NodeRegistration → String
relay_addr p =
    if not (str_eq p.public_addr "") then p.public_addr else elim p.addrs [ [] ↦ "" | a ∷ more ↦ a ]

-- A registered node that may relay to the target for a node with this id, and has an address.
abbrev pub serves_as_relay : String → NodeRegistration → NodeRegistration → Bool
serves_as_relay self_id target p =
    if not p.is_relay || str_eq p.node_id self_id || str_eq p.node_id target.node_id
    then false
    else not (str_eq (relay_addr p) "")

-- What Start registers for the node.
unfoldable pub own_registration : String → String → String → NodeRegistration
own_registration node_id bind_addr app_addr = record {
  node_id = node_id;
  addrs = bind_addr ∷ app_addr ∷ [];
  public_addr = "";
  is_relay = false;
  registered_at = 0;
}

module _ {M : Type 0} (net : Network M) (self_id : String) where
  -- tryMemberlistJoin: the state, the steps and whether it succeeds.
  unfoldable pub try_memberlist_join : M → NodeRegistration → M × (List Step × Bool)
  try_memberlist_join s peer = elim peer.addrs [
    | [] ↦ (s, ([], false))
    | a ∷ more ↦ let (s', ok) = net.join s a in (s', (join_step peer a ∷ [], ok))
  ]

  unfoldable pub try_hole_punch : M → NodeRegistration → M × (List Step × Bool)
  try_hole_punch s peer =
      let (s', ok) = net.punch s peer in
      if str_eq peer.public_addr "" then (s, ([], false)) else (s', (punch_step peer ∷ [], ok))

  -- The loop of tryRelay over the registered nodes; the last result is the relay's address.
  unfoldable pub relay_loop :
      M → NodeRegistration → List NodeRegistration → M × (List Step × Option String)
  relay_loop s target [] = (s, ([], none))
  relay_loop s target (p ∷ ps) =
      let (s', ok) = net.dial_relay s (relay_addr p) target in
      let skipped = relay_loop s target ps in
      let (s2, (steps, found)) = relay_loop s' target ps in
      let step : Step = relay_step p (relay_addr p) target in
      if not (serves_as_relay self_id target p)
      then skipped
      else if ok
      then (s', (step ∷ [], some (relay_addr p)))
      else (s2, (step ∷ steps, found))

  unfoldable pub try_relay : M → NodeRegistration → M × List Step
  try_relay s target = if target.is_relay then (s, []) else elim (net.discover s) [
    | none ↦ (s, [])
    | some peers ↦ let (s', (steps, found)) = relay_loop s target peers in (s', steps)
  ]

  -- One round of discoverAndConnect: Join, then the hole punch, then a relay.
  unfoldable pub connect_peer : M → NodeRegistration → M × List Step
  connect_peer s peer =
      let (s1, (joins, joined)) = try_memberlist_join s peer in
      let (s2, (punches, punched)) = try_hole_punch s1 peer in
      let (s3, relays) = try_relay s2 peer in
      if str_eq peer.node_id self_id || net.alive s peer.node_id
      then (s, [])
      else if joined
      then (s1, joins)
      else if punched
      then (s2, joins ++ punches)
      else (s3, joins ++ punches ++ relays)

  unfoldable pub connect_all : M → List NodeRegistration → M × List Step
  connect_all s [] = (s, [])
  connect_all s (p ∷ ps) =
      let (s1, steps) = connect_peer s p in
      let (s2, more) = connect_all s1 ps in (s2, steps ++ more)

  unfoldable pub discover_and_connect : M → M × List Step
  discover_and_connect s = elim (net.discover s) [
    | none ↦ (s, [])
    | some peers ↦ connect_all s peers
  ]
