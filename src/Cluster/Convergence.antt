-- ===== src/Cluster/Convergence.antt =====
-- An entry reaches every node that eager peers connect (engine/engine.go).
use Prim.Native.String.{String}
use gossip_mesh.Base.{ℕ, ◌≤◌, ◌≡◌, subst, arith, List, [], ◌∷◌, ◌++◌, All, inl, inr}
use gossip_mesh.Overlay.{OverlayPeer}
use gossip_mesh.Wire.Entry.{GossipEntry}
use gossip_mesh.Engine.Handlers.{World}
use gossip_mesh.Cluster.{Cluster, ClusterEvent, publish, cluster_step, cluster_run}
use gossip_mesh.Cluster.Effects.{mark}
use gossip_mesh.Cluster.Wire.{IsPeer}
use gossip_mesh.Cluster.Covered.{IsStable, IsCluster}
use gossip_mesh.Cluster.Events.{
  Allowed, cluster_step-IsCluster, cluster_run-IsCluster, publish-mark,
}

-- A node is reached from another one over eager peers.
pub data Reaches (peers : String → List OverlayPeer) (a : String) : String → Type 0 where
  here : Reaches peers a a
  next :
      {b d : String}
      → Reaches peers a b
      → (p : OverlayPeer) → IsPeer p (peers b)
      → p.addr ≡ d
      → Reaches peers a d

module _ (w : World) (peers : String → List OverlayPeer) (InUse : String → Type 0)
    (stable : IsStable w peers InUse) where
  -- A node that has taken an entry stays at its number or above.
  published-mark :
      (c : Cluster) (before later : List ClusterEvent) (a : String) (e : GossipEntry)
      → IsCluster w peers InUse stable c
      → All (Allowed w peers InUse stable) (before ++ publish a e ∷ later)
      → let c' = cluster_run w c (before ++ publish a e ∷ later) in
        IsCluster w peers InUse stable c' × (e.seq ≤ mark (c'.engines a) e.topic)
  unfolding cluster_run
  published-mark c [] later a e v ok =
      let c1 = cluster_step w c (publish a e) in
      let v1 = (cluster_step-IsCluster w peers InUse stable c (publish a e) ok.0 v).0 in
      let (v2, grows) = cluster_run-IsCluster w peers InUse stable c1 later ok.1 v1 in
      (v2, omega (arith, publish-mark w peers InUse stable c a e ok.0 v, grows a e.topic))
  published-mark c (ev ∷ before) later a e v ok =
      published-mark (cluster_step w c ev) before later a e
        (cluster_step-IsCluster w peers InUse stable c ev ok.0 v).0 ok.1

  -- With nothing on the wire, a node's marks are at most those of the nodes that it reaches.
  quiet_marks :
      (c : Cluster) (a : String) (t : ℕ) {b : String}
      → IsCluster w peers InUse stable c
      → c.wire ≡ []
      → Reaches peers a b
      → mark (c.engines a) t ≤ mark (c.engines b) t
  quiet_marks c a t v quiet here = omega arith
  quiet_marks c a t v quiet (next {b} {d} r p peer at) =
      let before = quiet_marks c a t v quiet r in
      elim (v.covered b p peer t) [
        | inl le ↦
            omega (arith, before, subst (λ x. mark (c.engines b) t ≤ mark (c.engines x) t) at le)
        | inr there ↦ elim (rw quiet at there) [ ]
      ]

  -- If no send fails, the eager peers do not change and have addresses in use, and no eager peer's
  -- node id is empty or an address in use; if at the start every message on the wire goes between
  -- addresses in use and encodes an entry within its types whose payload leaves the frame within 16
  -- MB, and what a node has marked for a topic its eager peers have marked too, or a message on the
  -- wire brings it to them; and if every entry that is published is within its types and that
  -- limit, at a node with an address in use: after any events, in any order, with which nothing is
  -- left on the wire, every node that is reached over eager peers from the one that took an entry
  -- has marked the entry's number, or a later one, for its topic.
  pub cluster_converges :
      (c : Cluster) (before later : List ClusterEvent) (a b : String) (e : GossipEntry)
      → IsCluster w peers InUse stable c
      → All (Allowed w peers InUse stable) (before ++ publish a e ∷ later)
      → Reaches peers a b
      → let c' = cluster_run w c (before ++ publish a e ∷ later) in
        c'.wire ≡ [] → e.seq ≤ mark (c'.engines b) e.topic
  cluster_converges c before later a b e v ok r quiet =
      let c' = cluster_run w c (before ++ publish a e ∷ later) in
      let (v', own) = published-mark c before later a e v ok in
      omega (arith, own, quiet_marks c' a e.topic v' quiet r)
