-- ===== src/Engine/Dedup.antt =====
-- Each entry is processed once, whoever sends it and by whichever path (engine/engine.go).
use Prim.Native.String.{String}
use text.Mathlib.Text.{◌==◌ as str_eq}
use gossip_mesh.Base.{
  ℕ, ◌+◌, ◌≤◌, ◌≡◌, refl, sym, subst, ◌∙◌, arith, List, [], ◌∷◌, length, if◌then◌else◌, Bool-cases,
  inl, inr,
}
use gossip_mesh.Seen.{should_process}
use gossip_mesh.Seen.Marks.{should_process-mark, should_process_refused}
use gossip_mesh.Ordered.{Item}
use gossip_mesh.Wire.Entry.{GossipEntry, ok}
use gossip_mesh.Wire.Eager.{decode_eager_message}
use gossip_mesh.Overlay.{OverlayPeer}
use gossip_mesh.Engine.State.{GossipEngine, deliver, deliver_all, apply}
use gossip_mesh.Engine.Forward.{Link, forward_one, forward_to, eager_forward, enqueue_for_lazy}
use gossip_mesh.Engine.Handlers.{World, accept, receive_eager, on_eager_receive}

-- Delivering and forwarding leave the duplicate filter alone.
deliver_all-seen : (g : GossipEngine) (t : ℕ) (is : List Item) → (deliver_all g t is).seen ≡ g.seen
unfolding deliver_all deliver
deliver_all-seen g t [] = refl
deliver_all-seen g t (i ∷ is) = deliver_all-seen (deliver g t i) t is ∙ ground arith

forward_to-seen :
    (link : Link) (g : GossipEngine) (msg : List ℕ) (exclude : String) (ps : List OverlayPeer)
    → (forward_to link g msg exclude ps).seen ≡ g.seen
unfolding forward_to forward_one
forward_to-seen link g msg exclude [] = refl
forward_to-seen link g msg exclude (p ∷ ps) =
    forward_to-seen link (if str_eq p.node_id exclude then g else forward_one link g msg p) msg
      exclude ps
    ∙ ground arith

accept-seen :
    (w : World) (g : GossipEngine) (e : GossipEntry) (from : String)
    → (accept w g e from).seen ≡ g.seen
unfolding accept apply eager_forward enqueue_for_lazy
accept-seen w g e from = forward_to-seen w.link _ _ from _ ∙ deliver_all-seen _ e.topic _

abbrev pub count_dup : GossipEngine → GossipEngine
count_dup g = record g { stats = record (g.stats) { eager_dup = g.stats.eager_dup + 1 } }

abbrev pub count_bytes : GossipEngine → ℕ → GossipEngine
count_bytes g n = record g { stats = record (g.stats) { bytes_recv = g.stats.bytes_recv + n } }

pub on_eager_receive_of :
    (w : World) (g : GossipEngine) (from : String) (bytes : List ℕ) (e : GossipEntry)
    → decode_eager_message bytes ≡ ok e
    → on_eager_receive w g from bytes ≡ receive_eager w (count_bytes g (length bytes)) e from
unfolding on_eager_receive
on_eager_receive_of w g from bytes e decoded = rw (decoded, on_eager_receive)

receive_eager_duplicate :
    (w : World) (g : GossipEngine) (e : GossipEntry) (from : String)
    → e.seq ≤ g.seen.slot_seqs e.topic
    → receive_eager w g e from ≡ count_dup g
unfolding receive_eager
receive_eager_duplicate w g e from old = rw (should_process_refused g.seen e.topic e.seq old)

-- A message that decodes to a number at or below its topic's mark changes two counters and nothing
-- else, whatever has been delivered.
pub on_eager_receive_duplicate :
    (w : World) (g : GossipEngine) (from : String) (bytes : List ℕ) (e : GossipEntry)
    → decode_eager_message bytes ≡ ok e
    → e.seq ≤ g.seen.slot_seqs e.topic
    → on_eager_receive w g from bytes ≡ count_dup (count_bytes g (length bytes))
on_eager_receive_duplicate w g from bytes e decoded old =
    on_eager_receive_of w g from bytes e decoded
    ∙ receive_eager_duplicate w (count_bytes g (length bytes)) e from old

pub receive_eager-mark :
    (w : World) (g : GossipEngine) (e : GossipEntry) (from : String)
    → e.seq ≤ (receive_eager w g e from).seen.slot_seqs e.topic
unfolding receive_eager
receive_eager-mark w g e from = elim (Bool-cases (should_process g.seen e.topic e.seq).1) [
  | inl fresh ↦ rw fresh (
      subst (λ s. e.seq ≤ s.slot_seqs e.topic) (sym (accept-seen w _ e from))
        (should_process-mark g.seen e.topic e.seq))
  | inr stale ↦ rw stale (should_process-mark g.seen e.topic e.seq)
]

-- The second arrival of a message that decodes, from whomever, changes two counters and nothing
-- else.
pub on_eager_receive_twice :
    (w : World) (g : GossipEngine) (from other : String) (bytes : List ℕ) (e : GossipEntry)
    → decode_eager_message bytes ≡ ok e
    → let once = on_eager_receive w g from bytes in
      on_eager_receive w once other bytes ≡ count_dup (count_bytes once (length bytes))
on_eager_receive_twice w g from other bytes e decoded =
    on_eager_receive_duplicate w (on_eager_receive w g from bytes) other bytes e decoded (
      rw (on_eager_receive_of w g from bytes e decoded)
        (receive_eager-mark w (count_bytes g (length bytes)) e from))
