-- ===== src/Cluster/Effects.antt =====
-- What the handlers do to an engine's marks, its overlay and what it has sent (engine/engine.go).
use Prim.Native.String.{String}
use text.Mathlib.Text.{◌==◌ as str_eq}
use gossip_mesh.Base.{
  ℕ, ◌+◌, ◌≡◌, ◌≢◌, refl, sym, ap, subst, ◌∙◌, arith, true, false, ◌&&◌, List, [], ◌∷◌, ◌++◌, map,
  ltb, ◌==◌, if◌then◌else◌, All, Bool-cases, inl, inr,
}
use mathlib.Core.List.{append-nil}
use gossip_mesh.Seen.{should_process}
use gossip_mesh.Seen.Marks.{should_process_lem}
use gossip_mesh.Ordered.{Item, receive}
use gossip_mesh.Repair.{cache_entry}
use gossip_mesh.Overlay.{Overlay, OverlayPeer}
use gossip_mesh.Wire.Entry.{GossipEntry}
use gossip_mesh.Wire.Eager.{encode_eager_message}
use gossip_mesh.Engine.State.{GossipEngine, Sent, deliver, deliver_all, apply, set_slot}
use gossip_mesh.Engine.Forward.{
  Link, message_to, forward_one, forward_to, eager_forward, enqueue_for_lazy,
}
use gossip_mesh.Engine.Handlers.{World, accept, receive_eager, handle_local}
use gossip_mesh.Engine.Fanout.{eager_forward_echo}

abbrev pub mark : GossipEngine → ℕ → ℕ
mark g t = g.seen.slot_seqs t

-- The mark of a topic after an entry.
abbrev pub raised : GossipEngine → GossipEntry → ℕ → ℕ
raised g e t = if (t == e.topic) && ltb (mark g e.topic) e.seq then e.seq else mark g t

-- No eager peer has this name as its node id.
abbrev pub Unnamed : String → GossipEngine → Type 0
Unnamed name g = All (λ p. p.node_id ≢ name) g.overlay.eager_peers

-- The entry's messages to all eager peers.
abbrev pub copies : GossipEngine → GossipEntry → List Sent
copies g e = map (message_to (encode_eager_message e)) g.overlay.eager_peers

deliver_all_keeps :
    (g : GossipEngine) (t : ℕ) (is : List Item)
    → ((deliver_all g t is).sent ≡ g.sent)
      × ((deliver_all g t is).overlay ≡ g.overlay)
      × ((deliver_all g t is).seen ≡ g.seen)
unfolding deliver_all deliver
deliver_all_keeps g t [] = (refl, refl, refl)
deliver_all_keeps g t (i ∷ is) =
    let (s, o, m) = deliver_all_keeps (deliver g t i) t is in
    (s ∙ ground arith, o ∙ ground arith, m ∙ ground arith)

forward_to_keeps :
    (link : Link) (g : GossipEngine) (msg : List ℕ) (exclude : String) (ps : List OverlayPeer)
    → ((forward_to link g msg exclude ps).overlay ≡ g.overlay)
      × ((forward_to link g msg exclude ps).seen ≡ g.seen)
unfolding forward_to forward_one
forward_to_keeps link g msg exclude [] = (refl, refl)
forward_to_keeps link g msg exclude (p ∷ ps) =
    let (o, m) =
      forward_to_keeps link (if str_eq p.node_id exclude then g else forward_one link g msg p) msg
        exclude ps in
    (o ∙ ground arith, m ∙ ground arith)

eager_forward_keeps :
    (link : Link) (g : GossipEngine) (e : GossipEntry) (exclude : String)
    → ((eager_forward link g e exclude).overlay ≡ g.overlay)
      × ((eager_forward link g e exclude).seen ≡ g.seen)
unfolding eager_forward
eager_forward_keeps link g e exclude =
    forward_to_keeps link g (encode_eager_message e) exclude g.overlay.eager_peers

-- The cache is written and the entry applied; then the forwarding.
accept_effect :
    (w : World) (g : GossipEngine) (e : GossipEntry) (from : String)
    → Unnamed from g
    → let g' = accept w g e from in
      (g'.sent ≡ g.sent ++ copies g e) × (g'.overlay ≡ g.overlay) × (g'.seen ≡ g.seen)
unfolding accept apply enqueue_for_lazy
accept_effect w g e from unnamed =
    let cached : GossipEngine = record g { cache = cache_entry w.first_key g.cache e } in
    let (s, out) = receive g.max_gap_buffer (g.slots e.topic) e.seq e.payload in
    let slotted : GossipEngine = record cached { slots = set_slot g.slots e.topic s } in
    let applied = deliver_all slotted e.topic out in
    let (sent, overlay, seen) = deliver_all_keeps slotted e.topic out in
    let (overlay', seen') = eager_forward_keeps w.link applied e from in
    let here : Unnamed from applied =
      subst (λ (o : Overlay). All (λ p. p.node_id ≢ from) o.eager_peers) (sym overlay) unnamed in
    (
      eager_forward_echo w.link applied e from here
          ∙ ap (λ xs. xs ++ copies applied e) sent
          ∙ ap (λ (o : Overlay). g.sent ++ map (message_to (encode_eager_message e)) o.eager_peers)
              overlay,
      overlay' ∙ overlay,
      seen' ∙ seen,
    )

pub receive_eager_effect :
    (w : World) (g : GossipEngine) (e : GossipEntry) (from : String)
    → Unnamed from g
    → let g' = receive_eager w g e from in
      (g'.sent ≡ g.sent ++ (if ltb (mark g e.topic) e.seq then copies g e else []))
      × (g'.overlay ≡ g.overlay)
      × ((t : ℕ) → mark g' t ≡ raised g e t)
unfolding receive_eager
receive_eager_effect w g e from unnamed =
    let counted : GossipEngine = record g {
      seen = (should_process g.seen e.topic e.seq).0;
      stats = record (g.stats) { eager_recv = g.stats.eager_recv + 1 };
    } in
    let (sent, overlay, seen) = accept_effect w counted e from unnamed in
    let known = should_process_lem g.seen e.topic e.seq in
    elim (Bool-cases (ltb (mark g e.topic) e.seq)) [
      | inl new ↦
          let fresh : (should_process g.seen e.topic e.seq).1 ≡ true = (known 0).0 ∙ new in
          rw (fresh, new)
            (sent, overlay, λ t. ap (λ x. x.slot_seqs t) seen ∙ (rw new at ((known t).1)))
      | inr old ↦
          let stale : (should_process g.seen e.topic e.seq).1 ≡ false = (known 0).0 ∙ old in
          rw (stale, old) (sym (append-nil g.sent), refl, λ t. rw old at ((known t).1))
    ]

pub handle_local_effect :
    (w : World) (g : GossipEngine) (e : GossipEntry)
    → Unnamed "" g
    → let g' = handle_local w g e in
      (g'.sent ≡ g.sent ++ copies g e)
      × (g'.overlay ≡ g.overlay)
      × ((t : ℕ) → mark g' t ≡ raised g e t)
unfolding handle_local enqueue_for_lazy
handle_local_effect w g e unnamed =
    let marked : GossipEngine = record g {
      stats = record (g.stats) { local_enqueue = g.stats.local_enqueue + 1 };
      seen = (should_process g.seen e.topic e.seq).0;
      cache = cache_entry w.first_key g.cache e;
    } in
    let (overlay, seen) = eager_forward_keeps w.link marked e "" in
    (
      eager_forward_echo w.link marked e "" unnamed,
      overlay,
      λ t. ap (λ x. x.slot_seqs t) seen ∙ (should_process_lem g.seen e.topic e.seq t).1,
    )
