-- ===== src/Engine/Handlers.antt =====
-- The engine's handlers: handleLocal, onEagerReceive, onLazyBatchReceive and sendLazyBatch
-- (engine/engine.go).
use Prim.Native.String.{String}
use gossip_mesh.Base.{ℕ, ◌+◌, Bool, Option, none, some, List, [], ◌∷◌, length, if◌then◌else◌}
use gossip_mesh.Base.Table.{string_key, lookup, insert}
use gossip_mesh.Seen.{TopicSeq, should_process}
use gossip_mesh.Repair.{Cache, cache_entry}
use gossip_mesh.LazyBuffer.{update_peer_seqs}
use gossip_mesh.Wire.Entry.{GossipEntry, ok, err}
use gossip_mesh.Wire.Eager.{decode_eager_message}
use gossip_mesh.Wire.Frame.Batches.{read_lazy_batch}
use gossip_mesh.Engine.State.{GossipEngine, EngineStats, apply}
use gossip_mesh.Engine.Forward.{Link, eager_forward, enqueue_for_lazy}

-- The environment: which key a range over the cache meets first, whether the transport takes a
-- message, and the decompressor.
pub record World : Type 0 where
  pub first_key : Cache → TopicSeq
  pub link : Link
  pub decompress : List ℕ → Option (List ℕ)

-- The work on an entry that is new: cache, deliver, forward.
unfoldable pub accept : World → GossipEngine → GossipEntry → String → GossipEngine
accept w g e from =
    let cached : GossipEngine = record g { cache = cache_entry w.first_key g.cache e } in
    enqueue_for_lazy (eager_forward w.link (apply cached e) e from) e from

unfoldable pub handle_local : World → GossipEngine → GossipEntry → GossipEngine
handle_local w g e =
    let st : EngineStats = g.stats in
    let marked : GossipEngine = record g {
      stats = record st { local_enqueue = st.local_enqueue + 1 };
      seen = (should_process g.seen e.topic e.seq).0;
      cache = cache_entry w.first_key g.cache e;
    } in
    enqueue_for_lazy (eager_forward w.link marked e "") e ""

-- What onEagerReceive does with a decoded entry.
unfoldable pub receive_eager : World → GossipEngine → GossipEntry → String → GossipEngine
receive_eager w g e from =
    let st : EngineStats = g.stats in
    let (seen, fresh) = should_process g.seen e.topic e.seq in
    let counted : GossipEngine = record g {
      seen = seen;
      stats = record st { eager_recv = st.eager_recv + 1 };
    } in
    if fresh
    then accept w counted e from
    else record g { seen = seen; stats = record st { eager_dup = st.eager_dup + 1 } }

unfoldable pub on_eager_receive : World → GossipEngine → String → List ℕ → GossipEngine
on_eager_receive w g from bytes =
    let st : EngineStats = g.stats in
    let counted : GossipEngine = record g {
      stats = record st { bytes_recv = st.bytes_recv + length bytes };
    } in
    elim (decode_eager_message bytes) [ err x ↦ counted | ok e ↦ receive_eager w counted e from ]

-- One round of the entry loop of onLazyBatchReceive.
unfoldable pub receive_lazy : World → GossipEngine → GossipEntry → String → GossipEngine
receive_lazy w g e from =
    let st : EngineStats = g.stats in
    let (seen, fresh) = should_process g.seen e.topic e.seq in
    let counted : GossipEngine = record g {
      seen = seen;
      stats = record st { lazy_recv = st.lazy_recv + 1 };
    } in
    if fresh
    then accept w counted e from
    else record g { seen = seen; stats = record st { lazy_dup = st.lazy_dup + 1 } }

unfoldable pub receive_lazy_all : World → GossipEngine → List GossipEntry → String → GossipEngine
receive_lazy_all w g [] from = g
receive_lazy_all w g (e ∷ es) from = receive_lazy_all w (receive_lazy w g e from) es from

-- The sender's marks go to the buffer that is kept under its name, if there is one.
unfoldable pub note_marks : GossipEngine → String → List TopicSeq → GossipEngine
note_marks g from marks = elim (lookup from g.lazy_buffers) [
  | none ↦ g
  | some b ↦ record g { lazy_buffers = insert from (update_peer_seqs b marks) g.lazy_buffers }
]

unfoldable pub on_lazy_batch_receive : World → GossipEngine → String → List ℕ → GossipEngine
on_lazy_batch_receive w g from reader = elim (read_lazy_batch w.decompress reader) [
  | err x ↦ g
  | ok b ↦ receive_lazy_all w (note_marks g from b.sender_high_water_marks) b.entries from
]

-- sendLazyBatch: whether the stream opened and each of its three writes went through.
pub record LazySend : Type 0 where
  pub opened : Bool
  pub typed : Bool
  pub headed : Bool
  pub carried : Bool

unfoldable pub send_lazy_batch : GossipEngine → LazySend → List ℕ → GossipEngine
send_lazy_batch g o compressed =
    let st : EngineStats = g.stats in
    let fail : GossipEngine = record g { stats = record st { lazy_fail = st.lazy_fail + 1 } } in
    if o.opened
    then (if o.typed
        then (if o.headed
            then (if o.carried
                then record g {
                  stats = record st {
                    lazy_send = st.lazy_send + 1;
                    lazy_bytes_sent = st.lazy_bytes_sent + (1 + 4 + length compressed);
                  };
                }
                else fail)
            else fail)
        else fail)
    else fail
