-- ===== src/Engine/Forward.antt =====
-- eagerForward, getEagerStream, enqueueForLazy and flushLazyBatches (engine/engine.go).
use Prim.Native.String.{String}
use text.Mathlib.Text.{◌==◌ as str_eq}
use gossip_mesh.Base.{
  ℕ, ◌+◌, Bool, false, ◌||◌, none, some, List, [], ◌∷◌, ◌++◌, length, ltb, ◌==◌, if◌then◌else◌,
}
use gossip_mesh.Base.Table.{string_key, lookup, insert}
use gossip_mesh.Seen.{TopicSeq, high_water_marks}
use gossip_mesh.LazyBuffer.{LazyBuffer, new_lazy_buffer, add, flush, len}
use gossip_mesh.Overlay.{OverlayPeer}
use gossip_mesh.Wire.Entry.{GossipEntry}
use gossip_mesh.Wire.Eager.{encode_eager_message}
use gossip_mesh.Wire.Batch.{LazyBatch}
use gossip_mesh.Engine.State.{GossipEngine, EngineStats, Sent, datagram, on_stream}

abbrev pub max_datagram_payload : ℕ
max_datagram_payload = 1100

has_stream : String → List String → Bool
has_stream a [] = false
has_stream a (s ∷ ss) = str_eq s a || has_stream a ss

pub get_eager_stream : List String → String → List String
unfolding has_stream
get_eager_stream streams a = if has_stream a streams then streams else streams ++ a ∷ []

-- Whether the transport takes a message.
abbrev pub Link : Type 0
Link = Sent → Bool

-- The message as it goes to one peer: a datagram, or on the peer's stream if it is too long for one.
abbrev pub message_to : List ℕ → OverlayPeer → Sent
message_to msg p =
    if ltb max_datagram_payload (length msg) then on_stream p.addr msg else datagram p.addr msg

unfoldable pub forward_one : Link → GossipEngine → List ℕ → OverlayPeer → GossipEngine
forward_one link g msg p =
    let st : EngineStats = g.stats in
    let use_stream : Bool = ltb max_datagram_payload (length msg) in
    record g {
      eager_streams =
          if use_stream then get_eager_stream g.eager_streams p.addr else g.eager_streams;
      sent = g.sent ++ message_to msg p ∷ [];
      stats =
          if link (message_to msg p)
          then record st {
            eager_send = st.eager_send + 1;
            eager_bytes_sent =
                st.eager_bytes_sent + (if use_stream then length msg + 5 else length msg);
          }
          else record st { eager_fail = st.eager_fail + 1 };
    }

unfoldable pub forward_to : Link → GossipEngine → List ℕ → String → List OverlayPeer → GossipEngine
forward_to link g msg exclude [] = g
forward_to link g msg exclude (p ∷ ps) =
    forward_to link (if str_eq p.node_id exclude then g else forward_one link g msg p) msg exclude
      ps

unfoldable pub eager_forward : Link → GossipEngine → GossipEntry → String → GossipEngine
eager_forward link g e exclude =
    forward_to link g (encode_eager_message e) exclude g.overlay.eager_peers

abbrev pub buffer_of : List (String × LazyBuffer) → String → LazyBuffer
buffer_of bufs id = elim (lookup id bufs) [ none ↦ new_lazy_buffer | some b ↦ b ]

unfoldable pub enqueue_to :
    List (String × LazyBuffer)
    → GossipEntry
    → String
    → List OverlayPeer
    → List (String × LazyBuffer)
enqueue_to bufs e exclude [] = bufs
enqueue_to bufs e exclude (p ∷ ps) =
    enqueue_to
      (if str_eq p.node_id exclude
        then bufs
        else insert p.node_id (add (buffer_of bufs p.node_id) e) bufs)
      e exclude ps

unfoldable pub enqueue_for_lazy : GossipEngine → GossipEntry → String → GossipEngine
enqueue_for_lazy g e exclude = record g {
  lazy_buffers = enqueue_to g.lazy_buffers e exclude g.overlay.lazy_peers;
}

pub record PeerBatch : Type 0 where
  pub addr : String
  pub batch : LazyBatch

-- The loop of flushLazyBatches: the buffers left, and the batches in order.
unfoldable pub flush_to :
    List TopicSeq
    → List (String × LazyBuffer)
    → List OverlayPeer
    → List (String × LazyBuffer) × List PeerBatch
flush_to marks bufs [] = (bufs, [])
flush_to marks bufs (p ∷ ps) =
    let b : LazyBuffer = buffer_of bufs p.node_id in
    let (entries, emptied) = flush b in
    let (left, batches) = flush_to marks (insert p.node_id emptied bufs) ps in
    let skipped : List (String × LazyBuffer) × List PeerBatch = flush_to marks bufs ps in
    if len b == 0 then skipped else (
      left,
      record {
        addr = p.addr;
        batch = record { entries = entries; sender_high_water_marks = marks };
      }
          ∷ batches,
    )

unfoldable pub flush_lazy_batches : GossipEngine → GossipEngine × List PeerBatch
flush_lazy_batches g =
    let (left, batches) = flush_to (high_water_marks g.seen) g.lazy_buffers g.overlay.lazy_peers in
    (record g { lazy_buffers = left }, batches)
