-- ===== src/Engine/Invariant.antt =====
-- The invariant of the engine's state, and the operations that need nothing of the environment
-- (engine/engine.go).
mod Handlers
pub mod Events
use Prim.Native.String.{String}
use text.Mathlib.Text.{◌==◌ as str_eq}
use gossip_mesh.Base.{
  ℕ, ◌+◌, ◌<◌, ◌≤◌, ◌≡◌, ◌≢◌, refl, arith, Bool, Option, none, some, List, [], ◌∷◌, ◌++◌, length,
  length-append, ltb, ltb→lt, ◌==◌, if◌then◌else◌, inl, inr, Bool-cases, Option-cases, if_both,
}
use gossip_mesh.Base.Table.{string_key, lookup}
use gossip_mesh.Base.Int.{or_default}
use gossip_mesh.Seen.{TopicSeq, should_process}
use gossip_mesh.Seen.Marks.{
  IsTracked, empty-IsTracked, should_process-IsTracked, set_topic_seq-IsTracked,
}
use gossip_mesh.Ordered.{Slot, Item, receive, gap_timer, set_next_seq, next_of}
use gossip_mesh.Ordered.Drain.{IsSlot}
use gossip_mesh.Ordered.Slots.{
  idle_slot-IsSlot, receive_keeps-IsSlot, gap_timer-IsSlot, set_next_seq-IsSlot,
}
use gossip_mesh.Ordered.Timer.{repair_gap}
use gossip_mesh.Repair.{Cache, topic_seq_key, cache_entry}
use gossip_mesh.Repair.Eviction.{IsCache, cache_entry-IsCache}
use gossip_mesh.Overlay.{Overlay, OverlayPeer}
use gossip_mesh.Wire.Entry.{GossipEntry, Result-cases}
use gossip_mesh.Engine.State.{
  GossipEngine, EngineConfig, EngineStats, new, deliver, deliver_all, set_slot, apply,
  set_initial_seq,
}
use gossip_mesh.Engine.Forward.{
  Link, forward_one, forward_to, eager_forward, enqueue_for_lazy, flush_lazy_batches,
}
use gossip_mesh.Engine.Handlers.{
  World, accept, handle_local, receive_eager, receive_lazy, receive_lazy_all, on_eager_receive,
  note_marks, on_lazy_batch_receive, LazySend, send_lazy_batch,
}
use gossip_mesh.Engine.Wiring.{
  EngineHandler, eager_receive, lazy_receive, repair_request, eager_stream, receive_messages,
  run_call,
}
use gossip_mesh.Engine.Dedup.{count_bytes}
use gossip_mesh.Transport.Dispatch.{Call}
use gossip_mesh.Wire.Eager.{decode_eager_message}
use gossip_mesh.Wire.Frame.Batches.{read_lazy_batch}
use gossip_mesh.Wire.Frame.Streams.{receive_eager_stream}
use gossip_mesh.Engine.Run.{
  RunningEngine, EngineEvent, enqueue, take_local, lazy_tick, datagram_in, uni_stream_in,
  bidi_stream_in, timer_fires, take_delivered, set_initial, batch_sent, local_size, fire_timer,
  engine_step, engine_run,
}

-- Every marked topic is in the active set, the cache has one payload for each key and is within its limit,
-- every slot of the applier is well formed, and the channel to the consumer holds no more than its capacity.
pub record IsEngine (g : GossipEngine) : Type 0 where
  pub tracked : IsTracked g.seen
  pub cached : IsCache g.cache
  pub slotted : (t : ℕ) → IsSlot (g.slots t)
  pub room : length g.deliver_ch ≤ g.deliver_buffer_size

pub new-IsEngine : (o : Overlay) (c : EngineConfig) → IsEngine (new o c)
unfolding new
new-IsEngine o c = record {
  tracked = empty-IsTracked;
  cached = record { distinct = tt; bounded = omega arith };
  slotted = λ t. idle_slot-IsSlot;
  room = omega arith;
}

deliver-IsEngine : (g : GossipEngine) (t : ℕ) (i : Item) → IsEngine g → IsEngine (deliver g t i)
unfolding deliver
deliver-IsEngine g t i v = elim (Bool-cases (ltb (length g.deliver_ch) g.deliver_buffer_size)) [
  | inl e ↦
      let below = ltb→lt (length g.deliver_ch) g.deliver_buffer_size e in
      rw (e, deliver)
        (record {
          tracked = v.tracked;
          cached = v.cached;
          slotted = v.slotted;
          room = omega (
            arith,
            below,
            length-append g.deliver_ch (record { topic = t; seq = i.0; payload = i.1 } ∷ []),
          );
        })
  | inr e ↦
      rw (e, deliver)
        (record { tracked = v.tracked; cached = v.cached; slotted = v.slotted; room = v.room })
]

deliver_all-IsEngine :
    (g : GossipEngine) (t : ℕ) (is : List Item) → IsEngine g → IsEngine (deliver_all g t is)
unfolding deliver_all
deliver_all-IsEngine g t [] v = v
deliver_all-IsEngine g t (i ∷ is) v =
    deliver_all-IsEngine (deliver g t i) t is (deliver-IsEngine g t i v)

set_slot-IsSlot :
    (slots : ℕ → Slot) (t : ℕ) (s : Slot)
    → ((u : ℕ) → IsSlot (slots u))
    → IsSlot s
    → (u : ℕ) → IsSlot (set_slot slots t s u)
set_slot-IsSlot slots t s all this u = elim (Bool-cases (u == t)) [
  | inl e ↦ rw e this
  | inr e ↦ rw e (all u)
]

-- An operation on the slot of one topic, and its deliveries.
slot_step-IsEngine :
    (g : GossipEngine) (t : ℕ) (s : Slot) (out : List Item)
    → IsSlot s
    → IsEngine g
    → IsEngine (deliver_all (record g { slots = set_slot g.slots t s }) t out)
slot_step-IsEngine g t s out slot v = deliver_all-IsEngine _ t out (record {
  tracked = v.tracked;
  cached = v.cached;
  slotted = set_slot-IsSlot g.slots t s v.slotted slot;
  room = v.room;
})

pub apply-IsEngine : (g : GossipEngine) (e : GossipEntry) → IsEngine g → IsEngine (apply g e)
unfolding apply
apply-IsEngine g e v =
    slot_step-IsEngine g e.topic _ _
      (receive_keeps-IsSlot g.max_gap_buffer (g.slots e.topic) e.seq e.payload (v.slotted e.topic))
      v

forward_to-IsEngine :
    (link : Link) (g : GossipEngine) (msg : List ℕ) (exclude : String) (ps : List OverlayPeer)
    → IsEngine g
    → IsEngine (forward_to link g msg exclude ps)
unfolding forward_to forward_one
forward_to-IsEngine link g msg exclude [] v = v
forward_to-IsEngine link g msg exclude (p ∷ ps) v =
    forward_to-IsEngine link (if str_eq p.node_id exclude then g else forward_one link g msg p) msg
      exclude ps
      (elim (Bool-cases (str_eq p.node_id exclude)) [
        | inl e ↦ rw e v
        | inr e ↦
            rw e (record {
              tracked = v.tracked;
              cached = v.cached;
              slotted = v.slotted;
              room = v.room;
            })
      ])

pub spread-IsEngine :
    (link : Link) (g : GossipEngine) (e : GossipEntry) (from : String)
    → IsEngine g
    → IsEngine (enqueue_for_lazy (eager_forward link g e from) e from)
unfolding enqueue_for_lazy eager_forward
spread-IsEngine link g e from v =
    let v' = forward_to-IsEngine link g _ from g.overlay.eager_peers v in
    record { tracked = v'.tracked; cached = v'.cached; slotted = v'.slotted; room = v'.room }

pub timer-IsEngine :
    (g : GossipEngine) (topic : ℕ) (found : Option (List ℕ))
    → IsEngine g
    → IsEngine (fire_timer g topic found)
unfolding fire_timer
timer-IsEngine g topic found v = woken (g.slots topic).sleeping refl
  where
    woken : (xs : List ℕ) → (g.slots topic).sleeping ≡ xs → IsEngine (fire_timer g topic found)
    woken [] e = rw (e, fire_timer) v
    woken (x ∷ []) e =
        rw (e, fire_timer)
          (slot_step-IsEngine g topic _ _
            (gap_timer-IsSlot g.max_gap_buffer found (g.slots topic) x e (v.slotted topic)) v)
    woken (x ∷ y ∷ xs) e = absurd (ground (arith, (v.slotted topic).one_timer, e))

pub set_initial_seq-IsEngine :
    (g : GossipEngine) (topic seq : ℕ) → IsEngine g → IsEngine (set_initial_seq g topic seq)
unfolding set_initial_seq
set_initial_seq-IsEngine g topic seq v = record {
  tracked = set_topic_seq-IsTracked g.seen topic seq v.tracked;
  cached = v.cached;
  slotted =
      set_slot-IsSlot g.slots topic _ v.slotted
        (set_next_seq-IsSlot (g.slots topic) (next_of seq) (v.slotted topic));
  room = v.room;
}

pub counted-IsEngine :
    (g : GossipEngine) (st : EngineStats) → IsEngine g → IsEngine (record g { stats = st })
counted-IsEngine g st v = record {
  tracked = v.tracked;
  cached = v.cached;
  slotted = v.slotted;
  room = v.room;
}
