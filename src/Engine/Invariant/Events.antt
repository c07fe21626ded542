-- ===== src/Engine/Invariant/Events.antt =====
-- The events of a running engine and its invariant (engine/engine.go).
use gossip_mesh.Base.{◌≡◌, ◌≢◌, refl, ap, arith, none, List, [], ◌∷◌, length, ltb, if_both}
use gossip_mesh.Base.Table.{string_key, lookup}
use gossip_mesh.Repair.{Cache, topic_seq_key}
use gossip_mesh.Wire.Entry.{GossipEntry}
use gossip_mesh.Engine.Forward.{flush_lazy_batches}
use gossip_mesh.Engine.Handlers.{World, handle_local}
use gossip_mesh.Engine.Run.{
  RunningEngine, EngineEvent, enqueue, take_local, lazy_tick, datagram_in, uni_stream_in,
  bidi_stream_in, timer_fires, take_delivered, set_initial, batch_sent, local_size, engine_step,
  engine_run,
}
use gossip_mesh.Engine.Invariant.{IsEngine, timer-IsEngine, set_initial_seq-IsEngine}
use gossip_mesh.Engine.Invariant.Handlers.{
  handle_local-IsEngine, run_call-IsEngine, send_lazy_batch-IsEngine,
}

module _ (w : World) (is_key : (c : Cache) → c ≢ [] → lookup (w.first_key c) c ≢ none) where
  engine_step-IsEngine :
      (r : RunningEngine) (e : EngineEvent)
      → IsEngine r.engine
      → IsEngine (engine_step w r e).engine
  unfolding engine_step flush_lazy_batches
  engine_step-IsEngine r (enqueue e) v =
      if_both (λ (r' : RunningEngine). IsEngine r'.engine) (ltb (length r.local_ch) local_size) _ _
        v v
  engine_step-IsEngine r take_local v = taken r.local_ch
    where
      taken :
          (es : List GossipEntry)
          → IsEngine
              (elim es as (λ _. RunningEngine) [
                | [] ↦ r
                | e ∷ rest ↦ record r { engine = handle_local w r.engine e; local_ch = rest }
              ]).engine
      taken [] = v
      taken (e ∷ rest) = handle_local-IsEngine w is_key r.engine e v
  engine_step-IsEngine r lazy_tick v = record {
    tracked = v.tracked;
    cached = v.cached;
    slotted = v.slotted;
    room = v.room;
  }
  engine_step-IsEngine r (datagram_in from msg) v = run_call-IsEngine w is_key r.engine _ v
  engine_step-IsEngine r (uni_stream_in from bytes) v = run_call-IsEngine w is_key r.engine _ v
  engine_step-IsEngine r (bidi_stream_in from readable bytes) v =
      run_call-IsEngine w is_key r.engine _ v
  engine_step-IsEngine r (timer_fires topic found) v = timer-IsEngine r.engine topic found v
  engine_step-IsEngine r take_delivered v = taken r.engine.deliver_ch refl
    where
      taken :
          (ds : List GossipEntry)
          → r.engine.deliver_ch ≡ ds
          → IsEngine (engine_step w r take_delivered).engine
      taken [] e = rw (e, engine_step) v
      taken (d ∷ ds) e =
          rw (e, engine_step)
            (record {
              tracked = v.tracked;
              cached = v.cached;
              slotted = v.slotted;
              room = omega (arith, ap length e, v.room);
            })
  engine_step-IsEngine r (set_initial topic seq) v = set_initial_seq-IsEngine r.engine topic seq v
  engine_step-IsEngine r (batch_sent o compressed) v =
      send_lazy_batch-IsEngine w is_key r.engine o compressed v

  -- If the key that a range over the cache meets first is one of its keys, then through any events, in any
  -- order, a running engine keeps its invariant: marked topics stay in the active set, the cache within
  -- 1024 entries, every slot of the applier well formed, and the consumer's channel within its capacity.
  pub engine_run-IsEngine :
      (r : RunningEngine) (es : List EngineEvent)
      → IsEngine r.engine
      → IsEngine (engine_run w r es).engine
  unfolding engine_run
  engine_run-IsEngine r [] v = v
  engine_run-IsEngine r (e ∷ es) v =
      engine_run-IsEngine (engine_step w r e) es (engine_step-IsEngine r e v)
