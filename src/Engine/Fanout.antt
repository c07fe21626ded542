-- ===== src/Engine/Fanout.antt =====
-- Who is sent what: eagerForward, enqueueForLazy and flushLazyBatches (engine/engine.go).
use Prim.Native.String.{String}
use text.Mathlib.Text.{◌==◌ as str_eq}
use text.Mathlib.TextEquality.{eq_iff}
use mathlib.Core.List.{append-nil, append_assoc}
use gossip_mesh.Base.{
  ℕ, ◌+◌, ◌≤◌, ◌≡◌, ◌≢◌, ◌⊎◌, refl, sym, ap, ◌∙◌, arith, true, false, not, List, [], ◌∷◌, ◌++◌, map,
  length, keep_if, ltb, if◌then◌else◌, Bool-cases, inl, inr, All, Any, Any-append_left,
  Any-append_right, ltb→le,
}
use gossip_mesh.Base.Table.{string_key, insert, lookup-insert}
use gossip_mesh.LazyBuffer.{LazyBuffer, add}
use gossip_mesh.Overlay.{OverlayPeer}
use gossip_mesh.Wire.Entry.{GossipEntry}
use gossip_mesh.Wire.Eager.{encode_eager_message}
use gossip_mesh.Engine.State.{GossipEngine}
use gossip_mesh.Engine.Forward.{
  Link, message_to, forward_one, forward_to, eager_forward, buffer_of, enqueue_to, enqueue_for_lazy,
}

abbrev pub others : String → List OverlayPeer → List OverlayPeer
others exclude = keep_if (λ p. not (str_eq p.node_id exclude))

abbrev attempts : GossipEngine → ℕ
attempts g = g.stats.eager_send + g.stats.eager_fail

others-cons :
    (exclude : String) (p : OverlayPeer) (ps : List OverlayPeer)
    → others exclude (p ∷ ps)
      ≡ (if str_eq p.node_id exclude then others exclude ps else p ∷ others exclude ps)
others-cons exclude p ps = ground arith

forward_one-attempts :
    (link : Link) (g : GossipEngine) (msg : List ℕ) (p : OverlayPeer) (qs : List OverlayPeer)
    → attempts (forward_one link g msg p) + length qs ≡ attempts g + length (p ∷ qs)
unfolding forward_one
forward_one-attempts link g msg p qs = ground arith

forward_to_lem :
    (link : Link) (g : GossipEngine) (msg : List ℕ) (exclude : String) (ps : List OverlayPeer)
    → ((forward_to link g msg exclude ps).sent ≡ g.sent ++ map (message_to msg) (others exclude ps))
      × (attempts (forward_to link g msg exclude ps) ≡ attempts g + length (others exclude ps))
unfolding forward_to forward_one
forward_to_lem link g msg exclude [] = (sym (append-nil g.sent), omega arith)
forward_to_lem link g msg exclude (p ∷ ps) = elim (Bool-cases (str_eq p.node_id exclude)) [
  | inl same ↦
      rw (others-cons exclude p ps, same, forward_to) (forward_to_lem link g msg exclude ps)
  | inr other ↦
      let (s, n) = forward_to_lem link (forward_one link g msg p) msg exclude ps in
      rw (others-cons exclude p ps, other, forward_to)
        (
          s ∙ append_assoc g.sent (message_to msg p ∷ []) _,
          n ∙ forward_one-attempts link g msg p (others exclude ps),
        )
]

-- Each eager peer but those of the excluded name is handed the encoded entry once, in the order of the
-- peers, and each handing over counts as a send or as a failure.
pub eager_forward_lem :
    (link : Link) (g : GossipEngine) (e : GossipEntry) (exclude : String)
    → let g' = eager_forward link g e exclude in
      let peers = others exclude g.overlay.eager_peers in
      (g'.sent ≡ g.sent ++ map (message_to (encode_eager_message e)) peers)
      × (g'.stats.eager_send + g'.stats.eager_fail
          ≡ g.stats.eager_send + g.stats.eager_fail + length peers)
unfolding eager_forward
eager_forward_lem link g e exclude =
    forward_to_lem link g (encode_eager_message e) exclude g.overlay.eager_peers

others_same :
    (exclude : String) (ps : List OverlayPeer)
    → All (λ p. p.node_id ≢ exclude) ps
    → others exclude ps ≡ ps
others_same exclude [] a = refl
others_same exclude (p ∷ ps) a = elim (Bool-cases (str_eq p.node_id exclude)) [
  | inl same ↦ absurd (a.0 ((eq_iff p.node_id exclude).0 same))
  | inr other ↦
      rw (others-cons exclude p ps, other) (ap (λ qs. p ∷ qs) (others_same exclude ps a.1))
]

-- If no eager peer has the excluded name as its node id, every eager peer is handed the encoded
-- entry.
pub eager_forward_echo :
    (link : Link) (g : GossipEngine) (e : GossipEntry) (from : String)
    → All (λ p. p.node_id ≢ from) g.overlay.eager_peers
    → (eager_forward link g e from).sent
      ≡ g.sent ++ map (message_to (encode_eager_message e)) g.overlay.eager_peers
eager_forward_echo link g e from unnamed =
    (eager_forward_lem link g e from).0
    ∙ ap (λ ps. g.sent ++ map (message_to (encode_eager_message e)) ps)
        (others_same from g.overlay.eager_peers unnamed)

-- The buffer holds the entry, or the peer is known to have seen it.
abbrev pub Holds : GossipEntry → LazyBuffer → Type 0
Holds e b = (e.seq ≤ b.peer_seqs e.topic) ⊎ Any (λ x. x ≡ e) b.entries

add-Holds : (b : LazyBuffer) (e : GossipEntry) → Holds e (add b e)
unfolding add
add-Holds b e = elim (Bool-cases (ltb (b.peer_seqs e.topic) e.seq)) [
  | inl new ↦ rw new (inr (Any-append_right (λ x. x ≡ e) b.entries (e ∷ []) (inl refl)))
  | inr seen ↦ rw seen (inl (ltb→le (b.peer_seqs e.topic) e.seq seen))
]

add_keeps-Holds : (b : LazyBuffer) (e x : GossipEntry) → Holds x b → Holds x (add b e)
unfolding add
add_keeps-Holds b e x h = elim (Bool-cases (ltb (b.peer_seqs e.topic) e.seq)) [
  | inr seen ↦ rw seen h
  | inl new ↦ rw new (elim h [
    | inl le ↦ inl le
    | inr there ↦ inr (Any-append_left (λ y. y ≡ x) b.entries (e ∷ []) there)
  ])
]

pub buffer_of-insert :
    (bufs : List (String × LazyBuffer)) (id j : String) (b : LazyBuffer)
    → buffer_of (insert id b bufs) j ≡ (if str_eq id j then b else buffer_of bufs j)
buffer_of-insert bufs id j b = ground (arith, lookup-insert id j b bufs)

enqueue_to_keeps :
    (bufs : List (String × LazyBuffer)) (e x : GossipEntry) (exclude id : String)
    (ps : List OverlayPeer)
    → Holds x (buffer_of bufs id)
    → Holds x (buffer_of (enqueue_to bufs e exclude ps) id)
unfolding enqueue_to
enqueue_to_keeps bufs e x exclude id [] h = h
enqueue_to_keeps bufs e x exclude id (p ∷ ps) h = elim (Bool-cases (str_eq p.node_id exclude)) [
  | inl same ↦ rw same (enqueue_to_keeps bufs e x exclude id ps h)
  | inr other ↦ rw other (
      enqueue_to_keeps (insert p.node_id (add (buffer_of bufs p.node_id) e) bufs) e x exclude id ps
        (rw (buffer_of-insert bufs p.node_id id (add (buffer_of bufs p.node_id) e))
          (step (Bool-cases (str_eq p.node_id id)))))
]
  where
    step :
        (str_eq p.node_id id ≡ true) ⊎ (str_eq p.node_id id ≡ false)
        → Holds x
            (if str_eq p.node_id id then add (buffer_of bufs p.node_id) e else buffer_of bufs id)
    step (inl hit) =
        rw (hit, (eq_iff p.node_id id).0 hit) (add_keeps-Holds (buffer_of bufs id) e x h)
    step (inr miss) = rw miss h

enqueue_to-Holds :
    (bufs : List (String × LazyBuffer)) (e : GossipEntry) (exclude id : String)
    (ps : List OverlayPeer)
    → id ≢ exclude
    → Any (λ p. p.node_id ≡ id) ps
    → Holds e (buffer_of (enqueue_to bufs e exclude ps) id)
unfolding enqueue_to
enqueue_to-Holds bufs e exclude id [] ne there = elim there [ ]
enqueue_to-Holds bufs e exclude id (p ∷ ps) ne (inr there) =
    enqueue_to-Holds
      (if str_eq p.node_id exclude
        then bufs
        else insert p.node_id (add (buffer_of bufs p.node_id) e) bufs)
      e exclude id ps ne there
enqueue_to-Holds bufs e exclude id (p ∷ ps) ne (inl here) =
    let other : str_eq p.node_id exclude ≡ false = ground (arith, eq_iff p.node_id exclude) in
    rw other (
      enqueue_to_keeps (insert p.node_id (add (buffer_of bufs p.node_id) e) bufs) e e exclude id ps
        (rw
          (
            buffer_of-insert bufs p.node_id id (add (buffer_of bufs p.node_id) e),
            (eq_iff p.node_id id).1 here,
          )
          (add-Holds (buffer_of bufs p.node_id) e)))

-- Every lazy peer but the excluded one has the entry in its buffer afterwards, or is known to have
-- seen it.
pub enqueue_for_lazy-Holds :
    (g : GossipEngine) (e : GossipEntry) (exclude id : String)
    → id ≢ exclude
    → Any (λ p. p.node_id ≡ id) g.overlay.lazy_peers
    → Holds e (buffer_of (enqueue_for_lazy g e exclude).lazy_buffers id)
unfolding enqueue_for_lazy
enqueue_for_lazy-Holds g e exclude id =
    enqueue_to-Holds g.lazy_buffers e exclude id g.overlay.lazy_peers

-- What a buffer holds it still holds after the enqueueing of an entry.
pub enqueue_for_lazy_keeps :
    (g : GossipEngine) (e : GossipEntry) (exclude id : String) (x : GossipEntry)
    → Holds x (buffer_of g.lazy_buffers id)
    → Holds x (buffer_of (enqueue_for_lazy g e exclude).lazy_buffers id)
unfolding enqueue_for_lazy
enqueue_for_lazy_keeps g e exclude id x =
    enqueue_to_keeps g.lazy_buffers e x exclude id g.overlay.lazy_peers
