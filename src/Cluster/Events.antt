-- ===== src/Cluster/Events.antt =====
-- The events of a cluster (engine/engine.go): each keeps what every state of a cluster keeps, and lowers no mark.
use Prim.Native.String.{String}
use text.Mathlib.TextEquality.{eq_iff}
use gossip_mesh.Base.{
  ℕ, ◌+◌, ◌≤◌, ◌≡◌, ◌≢◌, refl, sym, ap, subst, ◌∙◌, arith, true, ◌⊎◌, some, List, [], ◌∷◌, map,
  length, ltb, ◌==◌, if◌then◌else◌, ◌&&◌, All, Any, Bool-cases, Option-cases, inl, inr,
}
use gossip_mesh.Overlay.{OverlayPeer}
use gossip_mesh.Wire.Entry.{GossipEntry}
use gossip_mesh.Wire.Eager.{encode_eager_message}
use gossip_mesh.Engine.State.{GossipEngine, Sent}
use gossip_mesh.Engine.Handlers.{World, handle_local, receive_eager}
use gossip_mesh.Engine.Dedup.{count_bytes}
use gossip_mesh.Engine.Wiring.{arrive, arrive-message_to}
use gossip_mesh.Cluster.{
  Cluster, ClusterEvent, publish, arrives, destination, remove, nth, advance, cluster_step,
}
use gossip_mesh.Cluster.Effects.{mark, raised, copies, receive_eager_effect, handle_local_effect}
use gossip_mesh.Cluster.Wire.{
  Fits, Encodes, Carries, IsPeer, destination-message_to, copies-Carries, copies-All, Any-remove,
  All-remove, nth-All,
}
use gossip_mesh.Cluster.{cluster_run}
use gossip_mesh.Cluster.Covered.{
  IsStable, IsMessage, marks, IsCluster, Advanced, advance-IsCluster, advance-grows,
}

module _ (w : World) (peers : String → List OverlayPeer) (InUse : String → Type 0)
    (stable : IsStable w peers InUse) where
  abbrev Kept : Cluster → Type 0
  Kept c = IsCluster w peers InUse stable c

  raised-cases :
      (g : GossipEngine) (e : GossipEntry) (t : ℕ)
      → (mark g t ≤ raised g e t)
        × ((raised g e t ≡ mark g t)
            ⊎ ((e.topic ≡ t) × (raised g e t ≡ e.seq) × (ltb (mark g e.topic) e.seq ≡ true)))
  raised-cases g e t = elim (Bool-cases ((t == e.topic) && ltb (mark g e.topic) e.seq)) [
    | inl up ↦ (ground (arith, up), inr (ground (arith, up), rw up refl, ground (arith, up)))
    | inr same ↦ (ground (arith, same), inl (rw same refl))
  ]

  -- The messages that a node sends for an entry to all its eager peers.
  copies_are :
      (c : Cluster) (b : String) (e : GossipEntry)
      → Kept c
      → InUse b
      → Fits e
      → All (IsMessage w peers InUse stable) (map (λ (m : Sent). (b, m)) (copies (c.engines b) e))
        × ((p : OverlayPeer)
            → IsPeer p (peers b)
            → Any
                (Carries e.topic e.seq p.addr)
                (map (λ (m : Sent). (b, m)) (copies (c.engines b) e)))
  copies_are c b e v used fits = rw (v.fixed b) (
    copies-All (IsMessage w peers InUse stable) b e (peers b) (λ p peer. (
      used,
      rw (destination-message_to (encode_eager_message e) p) (stable.addressed b p peer),
      (e, p, fits, refl),
    )),
    λ p peer. copies-Carries b e p (peers b) fits peer,
  )

  -- A node takes an entry of its own.
  publish-Advanced :
      (c : Cluster) (b : String) (e : GossipEntry)
      → Kept c
      → InUse b
      → Fits e
      → Advanced w peers InUse stable c b
          (handle_local w (c.engines b) e)
          c.wire
          (copies (c.engines b) e)
  publish-Advanced c b e v used fits =
      let g = c.engines b in
      let (sent, overlay, at_mark) =
        handle_local_effect w g e
          (subst (All (λ p. p.node_id ≢ "")) (sym (v.fixed b)) (stable.unnamed_local b)) in
      let (good, each) = copies_are c b e v used fits in
      record {
        overlay = overlay;
        sent = sent;
        grows = λ t. omega (arith, at_mark t, (raised-cases g e t).0);
        left_messages = v.messages;
        out_messages = good;
        arrived = λ t n addr there. inl there;
        risen = λ t. elim (raised-cases g e t).1 [
          | inl same ↦ inl (at_mark t ∙ same)
          | inr (topic, seq, _) ↦ inr (λ p peer.
              rw (at_mark t, seq)
                (subst (λ u. Any (Carries u e.seq p.addr) (map (λ (m : Sent). (b, m)) (copies g e)))
                  topic (each p peer)))
        ];
      }

  -- A message arrives at the node that it is for.
  arrive-Advanced :
      (c : Cluster) (n : ℕ) (from : String) (m : Sent) (e : GossipEntry) (p : OverlayPeer)
      → Kept c
      → nth c.wire n ≡ some (from, m)
      → InUse from
      → InUse (destination m)
      → Fits e
      → Encodes e p m
      → (out : List Sent) × Advanced w peers InUse stable c
          (destination m)
          (arrive w (c.engines (destination m)) from m)
          (remove c.wire n)
          out
  arrive-Advanced c n from m e p v there known used fits enc =
      let b = destination m in
      let g = c.engines b in
      let g' = arrive w g from m in
      let counted = count_bytes g (10 + length e.payload) in
      let does : g' ≡ receive_eager w counted e from =
        ap (arrive w g from) enc ∙ (arrive-message_to w g from p e fits.0 fits.1).0 in
      let (sent, overlay, at_mark) =
        receive_eager_effect w counted e from
          (subst (All (λ q. q.node_id ≢ from)) (sym (v.fixed b)) (stable.unnamed b from known)) in
      let (good, each) = copies_are c b e v used fits in
      let out = if ltb (mark g e.topic) e.seq then copies g e else [] in
      let now : (t : ℕ) → mark g' t ≡ raised g e t = λ t. ap (λ x. mark x t) does ∙ at_mark t in
      (
        out,
        record {
          overlay = ap (λ x. x.overlay) does ∙ overlay;
          sent = ap (λ x. x.sent) does ∙ sent;
          grows = λ t. omega (arith, now t, (raised-cases g e t).0);
          left_messages = All-remove (IsMessage w peers InUse stable) c.wire n v.messages;
          out_messages = elim (Bool-cases (ltb (mark g e.topic) e.seq)) [
            | inl new ↦ rw new good
            | inr old ↦ rw old tt
          ];
          arrived = λ t k addr coming.
              elim (Any-remove (Carries t k addr) c.wire n (from, m) there coming) [
                | inl kept ↦ inl kept
                | inr (e', p', fits', enc', at, topic, seq) ↦
                    let reached : e'.seq ≤ mark g' e'.topic =
                      subst (λ x. e'.seq ≤ mark (arrive w g from x) e'.topic) (sym enc')
                        (arrive-message_to w g from p' e' fits'.0 fits'.1).1 in
                    inr (
                      sym at
                          ∙ sym (destination-message_to (encode_eager_message e') p')
                          ∙ ap destination (sym enc'),
                      subst (λ u. k ≤ mark g' u) topic (omega (arith, seq, reached)),
                    )
              ];
          risen = λ t. elim (raised-cases g e t).1 [
            | inl same ↦ inl (now t ∙ same)
            | inr (topic, seq, new) ↦ inr (λ q peer.
                rw (now t, seq, new)
                  (subst
                    (λ u. Any (Carries u e.seq q.addr) (map (λ (x : Sent). (b, x)) (copies g e)))
                    topic (each q peer)))
          ];
        },
      )

  -- An event of the cluster: only nodes in use take entries, and only entries that fit.
  abbrev pub Allowed : ClusterEvent → Type 0
  Allowed (publish a e) = InUse a × Fits e
  Allowed (arrives n) = Unit

  pub cluster_step-IsCluster :
      (c : Cluster) (ev : ClusterEvent)
      → Allowed ev
      → Kept c
      → Kept (cluster_step w c ev)
        × ((a : String) (t : ℕ)
            → marks w peers InUse stable c a t
              ≤ marks w peers InUse stable (cluster_step w c ev) a t)
  unfolding cluster_step
  cluster_step-IsCluster c (publish b e) (used, fits) v =
      let adv = publish-Advanced c b e v used fits in
      (
        advance-IsCluster w peers InUse stable c b (handle_local w (c.engines b) e) c.wire
            (copies (c.engines b) e) v adv,
        advance-grows w peers InUse stable c b (handle_local w (c.engines b) e) c.wire
            (copies (c.engines b) e) v adv,
      )
  cluster_step-IsCluster c (arrives n) ok v = elim (Option-cases (nth c.wire n)) [
    | inl e ↦ rw (e, cluster_step) (v, λ a t. omega arith)
    | inr ((from, m), there) ↦
        let (known, used, (e, p, fits, enc)) =
          nth-All (IsMessage w peers InUse stable) c.wire n (from, m) there v.messages in
        let (out, adv) = arrive-Advanced c n from m e p v there known used fits enc in
        let g' = arrive w (c.engines (destination m)) from m in
        rw (there, cluster_step)
          (
            advance-IsCluster w peers InUse stable c (destination m) g' (remove c.wire n) out v adv,
            advance-grows w peers InUse stable c (destination m) g' (remove c.wire n) out v adv,
          )
  ]

  pub cluster_run-IsCluster :
      (c : Cluster) (evs : List ClusterEvent)
      → All Allowed evs
      → Kept c
      → Kept (cluster_run w c evs)
        × ((a : String) (t : ℕ)
            → marks w peers InUse stable c a t
              ≤ marks w peers InUse stable (cluster_run w c evs) a t)
  unfolding cluster_run
  cluster_run-IsCluster c [] ok v = (v, λ a t. omega arith)
  cluster_run-IsCluster c (ev ∷ evs) ok v =
      let (v1, up1) = cluster_step-IsCluster c ev ok.0 v in
      let (v2, up2) = cluster_run-IsCluster (cluster_step w c ev) evs ok.1 v1 in
      (v2, λ a t. omega (arith, up1 a t, up2 a t))

  -- The node that takes an entry is at its number.
  pub publish-mark :
      (c : Cluster) (a : String) (e : GossipEntry)
      → Allowed (publish a e)
      → Kept c
      → e.seq ≤ marks w peers InUse stable (cluster_step w c (publish a e)) a e.topic
  unfolding cluster_step advance
  publish-mark c a e (used, fits) v =
      let g = c.engines a in
      let (_, _, at_mark) =
        handle_local_effect w g e
          (subst (All (λ p. p.node_id ≢ "")) (sym (v.fixed a)) (stable.unnamed_local a)) in
      rw ((eq_iff a a).1 refl) (ground (arith, at_mark e.topic))
