-- ===== src/Engine/Invariant/Handlers.antt =====
-- The handlers of the engine and its invariant (engine/engine.go).
use Prim.Native.String.{String}
use gossip_mesh.Base.{
  ℕ, ◌≢◌, Option, none, some, List, [], ◌∷◌, length, inl, inr, Bool-cases, Option-cases, if_both,
}
use gossip_mesh.Base.Table.{string_key, lookup}
use gossip_mesh.Seen.{TopicSeq, should_process}
use gossip_mesh.Seen.Marks.{should_process-IsTracked}
use gossip_mesh.Repair.{Cache, topic_seq_key}
use gossip_mesh.Repair.Eviction.{cache_entry-IsCache}
use gossip_mesh.Wire.Entry.{GossipEntry, Result-cases}
use gossip_mesh.Engine.State.{GossipEngine, EngineStats}
use gossip_mesh.Engine.Handlers.{
  World, accept, handle_local, receive_eager, receive_lazy, receive_lazy_all, on_eager_receive,
  note_marks, on_lazy_batch_receive, LazySend, send_lazy_batch,
}
use gossip_mesh.Engine.Wiring.{
  EngineHandler, eager_receive, lazy_receive, repair_request, eager_stream, receive_messages,
  run_call,
}
use gossip_mesh.Engine.Dedup.{count_bytes}
use gossip_mesh.Transport.Dispatch.{Call}
use gossip_mesh.Wire.Eager.{decode_eager_message}
use gossip_mesh.Wire.Frame.Batches.{read_lazy_batch}
use gossip_mesh.Wire.Frame.Streams.{receive_eager_stream}
use gossip_mesh.Engine.Invariant.{IsEngine, apply-IsEngine, spread-IsEngine, counted-IsEngine}

module _ (w : World) (is_key : (c : Cache) → c ≢ [] → lookup (w.first_key c) c ≢ none) where
  accept-IsEngine :
      (g : GossipEngine) (e : GossipEntry) (from : String)
      → IsEngine g
      → IsEngine (accept w g e from)
  unfolding accept
  accept-IsEngine g e from v = spread-IsEngine w.link _ e from (
      apply-IsEngine _ e (record {
        tracked = v.tracked;
        cached = cache_entry-IsCache w.first_key is_key g.cache e v.cached;
        slotted = v.slotted;
        room = v.room;
      }))

  pub handle_local-IsEngine :
      (g : GossipEngine) (e : GossipEntry) → IsEngine g → IsEngine (handle_local w g e)
  unfolding handle_local
  handle_local-IsEngine g e v = spread-IsEngine w.link _ e "" (record {
    tracked = should_process-IsTracked g.seen e.topic e.seq v.tracked;
    cached = cache_entry-IsCache w.first_key is_key g.cache e v.cached;
    slotted = v.slotted;
    room = v.room;
  })

  receive_eager-IsEngine :
      (g : GossipEngine) (e : GossipEntry) (from : String)
      → IsEngine g
      → IsEngine (receive_eager w g e from)
  unfolding receive_eager
  receive_eager-IsEngine g e from v =
      let marked = should_process-IsTracked g.seen e.topic e.seq v.tracked in
      elim (Bool-cases (should_process g.seen e.topic e.seq).1) [
        | inl fresh ↦
            rw (fresh, receive_eager)
              (accept-IsEngine _ e from (record {
                tracked = marked;
                cached = v.cached;
                slotted = v.slotted;
                room = v.room;
              }))
        | inr old ↦
            rw (old, receive_eager)
              (record { tracked = marked; cached = v.cached; slotted = v.slotted; room = v.room })
      ]

  receive_lazy-IsEngine :
      (g : GossipEngine) (e : GossipEntry) (from : String)
      → IsEngine g
      → IsEngine (receive_lazy w g e from)
  unfolding receive_lazy
  receive_lazy-IsEngine g e from v =
      let marked = should_process-IsTracked g.seen e.topic e.seq v.tracked in
      elim (Bool-cases (should_process g.seen e.topic e.seq).1) [
        | inl fresh ↦
            rw (fresh, receive_lazy)
              (accept-IsEngine _ e from (record {
                tracked = marked;
                cached = v.cached;
                slotted = v.slotted;
                room = v.room;
              }))
        | inr old ↦
            rw (old, receive_lazy)
              (record { tracked = marked; cached = v.cached; slotted = v.slotted; room = v.room })
      ]

  on_eager_receive-IsEngine :
      (g : GossipEngine) (from : String) (bytes : List ℕ)
      → IsEngine g
      → IsEngine (on_eager_receive w g from bytes)
  unfolding on_eager_receive
  on_eager_receive-IsEngine g from bytes v =
      let counted : IsEngine (count_bytes g (length bytes)) = record {
        tracked = v.tracked;
        cached = v.cached;
        slotted = v.slotted;
        room = v.room;
      } in
      elim (Result-cases (decode_eager_message bytes)) [
        | inr (x, bad) ↦ rw (bad, on_eager_receive) counted
        | inl (e, good) ↦
            rw (good, on_eager_receive)
              (receive_eager-IsEngine (count_bytes g (length bytes)) e from counted)
      ]

  receive_lazy_all-IsEngine :
      (g : GossipEngine) (es : List GossipEntry) (from : String)
      → IsEngine g
      → IsEngine (receive_lazy_all w g es from)
  unfolding receive_lazy_all
  receive_lazy_all-IsEngine g [] from v = v
  receive_lazy_all-IsEngine g (e ∷ es) from v =
      receive_lazy_all-IsEngine (receive_lazy w g e from) es from (receive_lazy-IsEngine g e from v)

  note_marks-IsEngine :
      (g : GossipEngine) (from : String) (marks : List TopicSeq)
      → IsEngine g
      → IsEngine (note_marks g from marks)
  unfolding note_marks
  note_marks-IsEngine g from marks v = elim (Option-cases (lookup from g.lazy_buffers)) [
    | inl e ↦ rw (e, note_marks) v
    | inr (b, e) ↦
        rw (e, note_marks)
          (record { tracked = v.tracked; cached = v.cached; slotted = v.slotted; room = v.room })
  ]

  on_lazy_batch_receive-IsEngine :
      (g : GossipEngine) (from : String) (reader : List ℕ)
      → IsEngine g
      → IsEngine (on_lazy_batch_receive w g from reader)
  unfolding on_lazy_batch_receive
  on_lazy_batch_receive-IsEngine g from reader v =
      elim (Result-cases (read_lazy_batch w.decompress reader)) [
        | inr (x, bad) ↦ rw (bad, on_lazy_batch_receive) v
        | inl (b, good) ↦
            rw (good, on_lazy_batch_receive)
              (receive_lazy_all-IsEngine _ b.entries from
                (note_marks-IsEngine g from b.sender_high_water_marks v))
      ]

  receive_messages-IsEngine :
      (g : GossipEngine) (from : String) (ms : List (List ℕ))
      → IsEngine g
      → IsEngine (receive_messages w g from ms)
  unfolding receive_messages
  receive_messages-IsEngine g from [] v = v
  receive_messages-IsEngine g from (m ∷ ms) v =
      receive_messages-IsEngine (on_eager_receive w g from m) from ms
        (on_eager_receive-IsEngine g from m v)

  call-IsEngine :
      (g : GossipEngine) (h : EngineHandler) (from : String) (bytes : List ℕ)
      → IsEngine g
      → IsEngine (run_call w g (some (record { handler = h; from = from; bytes = bytes })))
  unfolding run_call
  call-IsEngine g eager_receive from bytes v = on_eager_receive-IsEngine g from bytes v
  call-IsEngine g lazy_receive from bytes v = on_lazy_batch_receive-IsEngine g from bytes v
  call-IsEngine g repair_request from bytes v = v
  call-IsEngine g eager_stream from bytes v =
      receive_messages-IsEngine g from (receive_eager_stream bytes) v

  pub run_call-IsEngine :
      (g : GossipEngine) (c : Option (Call EngineHandler)) → IsEngine g → IsEngine (run_call w g c)
  unfolding run_call
  run_call-IsEngine g none v = v
  run_call-IsEngine g (some c) v = call-IsEngine g c.handler c.from c.bytes v

  pub send_lazy_batch-IsEngine :
      (g : GossipEngine) (o : LazySend) (bytes : List ℕ)
      → IsEngine g
      → IsEngine (send_lazy_batch g o bytes)
  unfolding send_lazy_batch
  send_lazy_batch-IsEngine g o bytes v =
      let counted : (st : EngineStats) → IsEngine (record g { stats = st }) =
        λ st. counted-IsEngine g st v in
      if_both IsEngine o.opened _ _
        (if_both IsEngine o.typed _ _
          (if_both IsEngine o.headed _ _ (if_both IsEngine o.carried _ _ (counted _) (counted _))
            (counted _))
          (counted _))
        (counted _)
