-- ===== src/Engine/Run.antt =====
-- A running engine (engine/engine.go): the select loop of Run, the calls of Enqueue and SetInitialSeq, the
-- transport's calls of the handlers, the goroutines that sleep in the applier or send a batch, and the
-- consumer, in any order. Each event is one of them at work; the handlers are taken to run one at a time.
use Prim.Native.String.{String}
use gossip_mesh.Base.{ℕ, Bool, Option, List, [], ◌∷◌, ◌++◌, length, ltb, if◌then◌else◌}
use gossip_mesh.Ordered.{gap_timer}
use gossip_mesh.Ordered.Timer.{repair_gap}
use gossip_mesh.Wire.Entry.{GossipEntry}
use gossip_mesh.Transport.Dispatch.{receive_datagram, dispatch_bidi_stream, dispatch_uni_stream}
use gossip_mesh.Engine.State.{GossipEngine, set_slot, deliver_all, set_initial_seq}
use gossip_mesh.Engine.Forward.{PeerBatch, flush_lazy_batches}
use gossip_mesh.Engine.Handlers.{World, handle_local, LazySend, send_lazy_batch}
use gossip_mesh.Engine.Wiring.{engine_handlers, run_call}

-- The capacity of localCh.
abbrev pub local_size : ℕ
local_size = 256

-- The batches are those that flushLazyBatches has handed to a goroutine each.
pub record RunningEngine : Type 0 where
  pub engine : GossipEngine
  pub local_ch : List GossipEntry
  pub batches : List PeerBatch

pub data EngineEvent : Type 0 where
  -- Enqueue, which waits while the channel is full.
  enqueue : GossipEntry → EngineEvent
  -- The two cases of the loop.
  take_local lazy_tick : EngineEvent
  -- What the transport receives, from an address.
  datagram_in uni_stream_in : String → List ℕ → EngineEvent
  bidi_stream_in : String → Bool → List ℕ → EngineEvent
  -- The goroutine that sleeps for a topic wakes up, with what the repair finds.
  timer_fires : ℕ → Option (List ℕ) → EngineEvent
  -- The consumer reads from the channel that Deliver returns.
  take_delivered : EngineEvent
  set_initial : ℕ → ℕ → EngineEvent
  -- A goroutine of sendLazyBatch ends, with its outcome and the compressed batch.
  batch_sent : LazySend → List ℕ → EngineEvent

-- The gap timer of a topic, and the deliveries that it makes.
unfoldable pub fire_timer : GossipEngine → ℕ → Option (List ℕ) → GossipEngine
fire_timer g topic found = elim (g.slots topic).sleeping [
  | [] ↦ g
  | e ∷ es ↦
      let (s, out) = gap_timer (repair_gap g.max_gap_buffer found) (g.slots topic) e in
      deliver_all (record g { slots = set_slot g.slots topic s }) topic out
]

unfoldable pub engine_step : World → RunningEngine → EngineEvent → RunningEngine
engine_step w r (enqueue e) =
    if ltb (length r.local_ch) local_size then record r { local_ch = r.local_ch ++ e ∷ [] } else r
engine_step w r take_local = elim r.local_ch [
  | [] ↦ r
  | e ∷ es ↦ record r { engine = handle_local w r.engine e; local_ch = es }
]
engine_step w r lazy_tick =
    let (g, made) = flush_lazy_batches r.engine in
    record r { engine = g; batches = r.batches ++ made }
engine_step w r (datagram_in from msg) = record r {
  engine = run_call w r.engine (receive_datagram engine_handlers from msg);
}
engine_step w r (uni_stream_in from bytes) = record r {
  engine = run_call w r.engine (dispatch_uni_stream engine_handlers from bytes);
}
engine_step w r (bidi_stream_in from readable bytes) = record r {
  engine = run_call w r.engine (dispatch_bidi_stream engine_handlers from readable bytes).0;
}
engine_step w r (timer_fires topic found) = record r { engine = fire_timer r.engine topic found }
engine_step w r take_delivered =
    let g : GossipEngine = r.engine in
    elim g.deliver_ch [ [] ↦ r | d ∷ ds ↦ record r { engine = record g { deliver_ch = ds } } ]
engine_step w r (set_initial topic seq) = record r { engine = set_initial_seq r.engine topic seq }
engine_step w r (batch_sent o compressed) = record r {
  engine = send_lazy_batch r.engine o compressed;
}

unfoldable pub engine_run : World → RunningEngine → List EngineEvent → RunningEngine
engine_run w r [] = r
engine_run w r (e ∷ es) = engine_run w (engine_step w r e) es
