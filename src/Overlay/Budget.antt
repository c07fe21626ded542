-- ===== src/Overlay/Budget.antt =====
-- Reclassify as a whole (overlay/overlay.go).
use text.Mathlib.Text.{◌==◌ as str_eq}
use text.Mathlib.TextEquality.{eq_iff}
use gossip_mesh.Base.{
  ◌+◌, ◌<◌, ◌≤◌, ◌≡◌, ◌≢◌, arith, true, false, not, List, length, ◌==◌, min, Bool-cases, inl, inr,
  All, All-keep_if, All-map, ==_iff,
}
use gossip_mesh.Overlay.{
  PeerInfo, Overlay, select_eager, capped_peers, without_self, reclassify, peer_count,
}
use gossip_mesh.Overlay.Counting.{length-classify}
use gossip_mesh.Overlay.Reclassify.{
  Sorts, FromPeer, All-classify, All-capped_peers, length-capped_peers, length-select_eager,
  count_true-select_eager,
}

module _ (sort_by_rtt : List PeerInfo → List PeerInfo) (sorts : Sorts sort_by_rtt) where
  reclassify_bounds :
      (o : Overlay) (ps : List PeerInfo)
      → let o' = reclassify sort_by_rtt o ps in
        let m = length (without_self o.self ps) in
        (peer_count o' ≡ min m (o.cfg.max_eager + o.cfg.max_lazy))
        × (length o'.eager_peers ≤ o.cfg.max_eager)
        × (o.cfg.min_eager + o.cfg.min_lazy < min m (o.cfg.max_eager + o.cfg.max_lazy)
            → o.cfg.min_lazy ≤ length o'.lazy_peers)
  unfolding reclassify peer_count
  reclassify_bounds o ps =
      let filtered = without_self o.self ps in
      let chosen = capped_peers sort_by_rtt o.cfg filtered in
      let flags = select_eager o.cfg chosen in
      let (eager, lazy) = length-classify flags chosen (length-select_eager o.cfg chosen) in
      let total = length-capped_peers sort_by_rtt sorts o.cfg filtered in
      let (_, _, limit, rest) = count_true-select_eager o.cfg chosen in
      elim (Bool-cases (length filtered == 0)) [
        | inl e ↦
            let nobody : length filtered ≡ 0 = (==_iff _ 0).0 e in
            rw e (omega (arith, nobody), omega arith, λ h. absurd (omega (arith, h, nobody)))
        | inr e ↦ rw e (
          omega (arith, eager, lazy, total),
          omega (arith, eager, limit),
          λ h. omega (arith, eager, lazy, total, rest, h),
        )
      ]

  -- If the sort keeps the peers, the overlay holds after Reclassify as many peers as there are
  -- others, up to the total budget, and at most the eager limit of them is eager.
  pub reclassify_counts :
      (o : Overlay) (ps : List PeerInfo)
      → let o' = reclassify sort_by_rtt o ps in
        (peer_count o' ≡ min (length (without_self o.self ps)) (o.cfg.max_eager + o.cfg.max_lazy))
        × (length o'.eager_peers ≤ o.cfg.max_eager)
  reclassify_counts o ps = let (total, eager, _) = reclassify_bounds o ps in (total, eager)

  -- If the sort keeps the peers, and both the number of other peers and the total budget exceed the
  -- sum of the two minima, Reclassify leaves at least the minimum of lazy peers.
  pub reclassify_keeps_lazy :
      (o : Overlay) (ps : List PeerInfo)
      → o.cfg.min_eager + o.cfg.min_lazy < length (without_self o.self ps)
      → o.cfg.min_eager + o.cfg.min_lazy < o.cfg.max_eager + o.cfg.max_lazy
      → o.cfg.min_lazy ≤ length (reclassify sort_by_rtt o ps).lazy_peers
  reclassify_keeps_lazy o ps peers budget = (reclassify_bounds o ps).2 (omega arith)

  -- If the sort keeps the peers, every classified peer is one of the given peers and not the node
  -- itself, with its own address and round trip time, and its flag says in which of the two sets it
  -- is.
  pub reclassify_from :
      (P : PeerInfo → Type 0) (o : Overlay) (ps : List PeerInfo)
      → All P ps
      → let other = λ (p : PeerInfo). P p × (p.node_id ≢ o.self) in
        All (FromPeer other true) (reclassify sort_by_rtt o ps).eager_peers
        × All (FromPeer other false) (reclassify sort_by_rtt o ps).lazy_peers
  unfolding reclassify
  reclassify_from P o ps a =
      let other = λ (p : PeerInfo). P p × (p.node_id ≢ o.self) in
      let filtered = without_self o.self ps in
      let chosen = capped_peers sort_by_rtt o.cfg filtered in
      let flags = select_eager o.cfg chosen in
      let kept : All other filtered =
        All-map _ _ (λ p h. (h.0, is_other p h.1)) _
          (All-keep_if P (λ p. not (str_eq p.node_id o.self)) ps a) in
      let capped : All other chosen =
        All-capped_peers sort_by_rtt sorts other o.cfg filtered kept in
      elim (Bool-cases (length filtered == 0)) [
        | inl e ↦ rw e (tt, tt)
        | inr e ↦ rw e (
          All-classify other true flags chosen capped,
          All-classify other false flags chosen capped,
        )
      ]
    where
      is_other : (p : PeerInfo) → not (str_eq p.node_id o.self) ≡ true → p.node_id ≢ o.self
      is_other p h same = ground (arith, eq_iff p.node_id o.self)
