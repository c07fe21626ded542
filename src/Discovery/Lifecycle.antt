-- ===== src/Discovery/Lifecycle.antt =====
-- The extension from Start to Stop (s3nat/s3nat.go): its registration, the hook for nodes that leave, and the
-- poll loop. A node is the membership, what the extension keeps, and the object store that it shares.
pub mod Cleanup
pub mod Stopping
pub mod Polling
mod Examples
use Prim.Native.String.{String}
use gossip_mesh.Base.{
  ℕ, ◌+◌, Bool, true, false, Option, none, some, List, [], ◌∷◌, ◌++◌, if◌then◌else◌,
}
use gossip_mesh.Membership.{
  Services, Membership, Notice, changed, left, Event, handle_event, set_on_leave,
}
use gossip_mesh.Bootstrap.{
  NodeRegistration, ObjectStoreOps, accepted, rejected, register, deregister,
}
use gossip_mesh.Discovery.{Network, Step, own_registration, discover_and_connect}

-- What the extension reads of the mesh's configuration.
pub record MeshConfig : Type 0 where
  pub node_id : String
  pub bind_addr : String
  pub bind_port : ℕ

-- `reg` is none until the node has registered; `polling` tells whether the poll loop runs, `reflecting` whether
-- the handler of address reflections is registered.
pub record Extension (V C S : Type 0) : Type 0 where
  pub membership : Membership V C
  pub store : S
  pub reg : Option NodeRegistration
  pub polling : Bool
  pub reflecting : Bool

module _ {V C S : Type 0} (sv : Services V C) (ops : ObjectStoreOps S) where
  -- The address that the node registers for the application is that of the next port.
  unfoldable pub registration_of : MeshConfig → NodeRegistration
  unfolding own_registration
  registration_of cfg =
      own_registration cfg.node_id (sv.join_host_port cfg.bind_addr cfg.bind_port)
        (sv.join_host_port cfg.bind_addr (cfg.bind_port + 1))

  -- Start but for the first round of discoverAndConnect, and whether it succeeds.
  unfoldable pub start_extension :
      (NodeRegistration → Option (List ℕ))
      → ℕ
      → MeshConfig
      → Extension V C S
      → Extension V C S × Bool
  start_extension marshal now cfg e =
      let r = registration_of cfg in
      let (s, result) = register ops marshal now e.store r in
      elim result [
        | rejected why ↦ (record e { store = s; reflecting = true }, false)
        | accepted _ ↦ (
          record e {
            membership = set_on_leave sv e.membership;
            store = s;
            reg = some r;
            polling = true;
            reflecting = true;
          },
          true,
        )
      ]

  -- The callback that Start sets with SetOnLeave. An error of Deregister is logged.
  abbrev pub on_leave : S → Notice C → S
  on_leave s (changed ps) = s
  on_leave s (left id) = (deregister ops s id).0

  abbrev pub on_leave_all : S → List (Notice C) → S
  on_leave_all s [] = s
  on_leave_all s (n ∷ ns) = on_leave_all (on_leave s n) ns

  unfoldable pub extension_event : Extension V C S → Event → Extension V C S
  extension_event e ev =
      let (m, notices) = handle_event sv e.membership ev in
      record e { membership = m; store = on_leave_all e.store notices }

  unfoldable pub extension_run : Extension V C S → List Event → Extension V C S
  extension_run e [] = e
  extension_run e (ev ∷ evs) = extension_run (extension_event e ev) evs

  -- Stop, which waits for the poll loop; the registration's error is dropped.
  unfoldable pub stop_extension : Extension V C S → Extension V C S
  stop_extension e = elim e.reg [
    | none ↦ record e { polling = false }
    | some r ↦ record e { polling = false; store = (deregister ops e.store r.node_id).0 }
  ]

-- The two cases of the poll loop's select.
pub data Wake : Type 0 where
  tick cancelled : Wake

-- pollLoop, on what wakes it up, in order: the state, and what has been tried.
unfoldable pub poll_loop : {M : Type 0} → Network M → String → M → List Wake → M × List Step
poll_loop net self_id s [] = (s, [])
poll_loop net self_id s (cancelled ∷ ws) = (s, [])
poll_loop net self_id s (tick ∷ ws) =
    let (s1, steps) = discover_and_connect net self_id s in
    let (s2, more) = poll_loop net self_id s1 ws in (s2, steps ++ more)

-- All that Start and the poll loop try: the first round, and the loop.
unfoldable pub connect_rounds : {M : Type 0} → Network M → String → M → List Wake → M × List Step
unfolding poll_loop
connect_rounds net self_id s ws =
    let (s1, steps) = discover_and_connect net self_id s in
    let (s2, more) = poll_loop net self_id s1 ws in (s2, steps ++ more)
