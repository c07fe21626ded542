-- ===== src/Cluster.antt =====
-- Several engines at once (engine/engine.go): a node is the address that its transport dials from
-- and is dialled at, and what an engine sends is on the wire until it arrives. Messages arrive in
-- any order, or not at all.
mod Effects
mod Wire
mod Covered
mod Events
pub mod Convergence
mod Examples
use Prim.Native.String.{String}
use text.Mathlib.Text.{◌==◌ as str_eq}
use gossip_mesh.Base.{
  ℕ, zero, suc, Bool, Option, none, some, List, [], ◌∷◌, ◌++◌, map, length, drop, keep_if,
  if◌then◌else◌,
}
use gossip_mesh.Wire.Entry.{GossipEntry}
use gossip_mesh.Engine.State.{GossipEngine, Sent, datagram, on_stream}
use gossip_mesh.Engine.Handlers.{World, handle_local}
use gossip_mesh.Engine.Wiring.{arrive}

pub record Cluster : Type 0 where
  pub engines : String → GossipEngine
  -- The sender and the message.
  pub wire : List (String × Sent)

pub data ClusterEvent : Type 0 where
  -- The select loop of a node takes a local entry.
  publish : String → GossipEntry → ClusterEvent
  -- A message on the wire arrives, by its place there.
  arrives : ℕ → ClusterEvent

abbrev pub destination : Sent → String
destination (datagram addr msg) = addr
destination (on_stream addr msg) = addr

abbrev pub remove : {A : Type 0} → List A → ℕ → List A
remove [] n = []
remove (x ∷ xs) zero = xs
remove (x ∷ xs) (suc n) = x ∷ remove xs n

abbrev pub nth : {A : Type 0} → List A → ℕ → Option A
nth [] n = none
nth (x ∷ xs) zero = some x
nth (x ∷ xs) (suc n) = nth xs n

-- What the transport has taken since the engine was in the state `g`.
abbrev pub taken : World → String → GossipEngine → GossipEngine → List (String × Sent)
taken w a g g' = map (λ m. (a, m)) (keep_if w.link (drop (length g.sent) g'.sent))

-- The node's engine goes from one state to another one.
unfoldable pub advance : World → Cluster → String → GossipEngine → List (String × Sent) → Cluster
advance w c a g' wire = record {
  engines = λ b. if str_eq b a then g' else c.engines b;
  wire = wire ++ taken w a (c.engines a) g';
}

unfoldable pub cluster_step : World → Cluster → ClusterEvent → Cluster
cluster_step w c (publish a e) = advance w c a (handle_local w (c.engines a) e) c.wire
cluster_step w c (arrives n) = elim (nth c.wire n) [
  | none ↦ c
  | some (from, m) ↦
      let b = destination m in advance w c b (arrive w (c.engines b) from m) (remove c.wire n)
]

unfoldable pub cluster_run : World → Cluster → List ClusterEvent → Cluster
cluster_run w c [] = c
cluster_run w c (ev ∷ evs) = cluster_run w (cluster_step w c ev) evs
