-- ===== src/Cluster/Covered.antt =====
-- What every state of a cluster keeps (engine/engine.go): an eager peer of a node is at the node's
-- mark, or a message on the wire takes it there.
use Prim.Native.String.{String}
use text.Mathlib.Text.{◌==◌ as str_eq}
use text.Mathlib.TextEquality.{eq_iff}
use gossip_mesh.Base.{
  ℕ, ◌≤◌, ◌≡◌, ◌≢◌, refl, sym, ap, subst, ◌∙◌, arith, true, false, ◌⊎◌, List, ◌++◌, map, All,
  All-append, Any, Any-append_left, Any-append_right, Bool-cases, inl, inr,
}
use gossip_mesh.Overlay.{OverlayPeer}
use gossip_mesh.Wire.Entry.{GossipEntry}
use gossip_mesh.Engine.State.{GossipEngine, Sent}
use gossip_mesh.Engine.Handlers.{World}
use gossip_mesh.Cluster.{Cluster, destination, advance}
use gossip_mesh.Cluster.Effects.{mark}
use gossip_mesh.Cluster.Wire.{Fits, Encodes, Carries, IsPeer, taken-sent}

-- The eager peers of every node, which do not change, and the addresses in use. No send fails, every eager peer
-- has an address in use, and no peer's node id is empty or an address in use.
pub record IsStable (w : World) (peers : String → List OverlayPeer) (InUse : String → Type 0)
    : Type 0 where
  pub up : (m : Sent) → w.link m ≡ true
  pub addressed : (a : String) (p : OverlayPeer) → IsPeer p (peers a) → InUse p.addr
  pub unnamed : (a b : String) → InUse b → All (λ p. p.node_id ≢ b) (peers a)
  pub unnamed_local : (a : String) → All (λ p. p.node_id ≢ "") (peers a)

module _ (w : World) (peers : String → List OverlayPeer) (InUse : String → Type 0)
    (stable : IsStable w peers InUse) where
  abbrev pub IsMessage : String × Sent → Type 0
  IsMessage x =
      InUse x.0
      × InUse (destination x.1)
      × ((e : GossipEntry) × (p : OverlayPeer) × Fits e × Encodes e p x.1)

  abbrev pub marks : Cluster → String → ℕ → ℕ
  marks c a t = mark (c.engines a) t

  abbrev pub Covered : Cluster → String → OverlayPeer → ℕ → Type 0
  Covered c a p t = (marks c a t ≤ marks c p.addr t) ⊎ Any (Carries t (marks c a t) p.addr) c.wire

  pub record IsCluster (c : Cluster) : Type 0 where
    pub fixed : (a : String) → (c.engines a).overlay.eager_peers ≡ peers a
    pub messages : All IsMessage c.wire
    pub covered : (a : String) (p : OverlayPeer) → IsPeer p (peers a) → (t : ℕ) → Covered c a p t

  -- What an event has done at one node: the engine has another state, some messages are left on the wire, and
  -- others have been sent.
  pub record Advanced (c : Cluster) (b : String) (g' : GossipEngine) (left : List (String × Sent))
      (out : List Sent) : Type 0 where
    pub overlay : g'.overlay ≡ (c.engines b).overlay
    pub sent : g'.sent ≡ (c.engines b).sent ++ out
    pub grows : (t : ℕ) → marks c b t ≤ mark g' t
    pub left_messages : All IsMessage left
    pub out_messages : All IsMessage (map (λ (m : Sent). (b, m)) out)
    -- A message that is no longer on the wire has arrived here, and the mark is at its number.
    pub arrived :
        (t n : ℕ) (addr : String)
        → Any (Carries t n addr) c.wire
        → Any (Carries t n addr) left ⊎ ((addr ≡ b) × (n ≤ mark g' t))
    -- Where the mark has risen, every peer is sent its number.
    pub risen :
        (t : ℕ)
        → (mark g' t ≡ marks c b t)
          ⊎ ((p : OverlayPeer)
              → IsPeer p (peers b)
              → Any (Carries t (mark g' t) p.addr) (map (λ (m : Sent). (b, m)) out))

  module _ (c : Cluster) (b : String) (g' : GossipEngine) (left : List (String × Sent))
      (out : List Sent) (v : IsCluster c) (adv : Advanced c b g' left out) where
    abbrev after : Cluster
    after = advance w c b g' left

    wire-after : after.wire ≡ left ++ map (λ (m : Sent). (b, m)) out
    unfolding advance
    wire-after = ap (λ xs. left ++ xs) (taken-sent w b (c.engines b) g' out stable.up adv.sent)

    here : (t : ℕ) → marks after b t ≡ mark g' t
    unfolding advance
    here t = rw ((eq_iff b b).1 refl) refl

    elsewhere : (a : String) (t : ℕ) → str_eq a b ≡ false → marks after a t ≡ marks c a t
    unfolding advance
    elsewhere a t e = rw e refl

    pub advance-grows : (a : String) (t : ℕ) → marks c a t ≤ marks after a t
    advance-grows a t = elim (Bool-cases (str_eq a b)) [
      | inl same ↦ rw ((eq_iff a b).0 same) (omega (arith, here t, adv.grows t))
      | inr other ↦ omega (arith, elsewhere a t other)
    ]

    -- Where the node's own mark is as before, a peer that was covered still is.
    old-Covered :
        (a : String) (p : OverlayPeer) (t : ℕ)
        → marks after a t ≡ marks c a t
        → Covered c a p t
        → Covered after a p t
    old-Covered a p t same (inl le) = inl (omega (arith, same, le, advance-grows p.addr t))
    old-Covered a p t same (inr there) = elim (adv.arrived t (marks c a t) p.addr there) [
      | inl kept ↦
          inr (rw (same, wire-after) (Any-append_left (Carries t (marks c a t) p.addr) left _ kept))
      | inr (to_b, le) ↦ inl (rw (same, to_b, here t) le)
    ]

    Covered-here : (p : OverlayPeer) → IsPeer p (peers b) → (t : ℕ) → Covered after b p t
    Covered-here p peer t = elim (adv.risen t) [
      | inl same ↦ old-Covered b p t (here t ∙ same) (v.covered b p peer t)
      | inr sent ↦ inr (
          rw (here t, wire-after)
            (Any-append_right (Carries t (mark g' t) p.addr) left _ (sent p peer)))
    ]

    advance-Covered :
        (a : String) (p : OverlayPeer) → IsPeer p (peers a) → (t : ℕ) → Covered after a p t
    advance-Covered a p peer t = elim (Bool-cases (str_eq a b)) [
      | inr other ↦ old-Covered a p t (elsewhere a t other) (v.covered a p peer t)
      | inl same ↦
          let e : b ≡ a = sym ((eq_iff a b).0 same) in
          subst (λ x. Covered after x p t) e
            (Covered-here p (subst (λ x. IsPeer p (peers x)) (sym e) peer) t)
    ]

    pub advance-IsCluster : IsCluster (advance w c b g' left)
    unfolding advance
    advance-IsCluster = record {
      fixed = λ a. elim (Bool-cases (str_eq a b)) [
        | inl same ↦
            rw same (
              ap (λ o. o.eager_peers) adv.overlay
              ∙ v.fixed b
              ∙ ap peers (sym ((eq_iff a b).0 same)))
        | inr other ↦ rw other (v.fixed a)
      ];
      messages =
          subst (All IsMessage) (sym wire-after)
            (All-append IsMessage left _ adv.left_messages adv.out_messages);
      covered = advance-Covered;
    }
