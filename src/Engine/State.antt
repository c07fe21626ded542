-- ===== src/Engine/State.antt =====
-- The engine's state, its configuration and the delivery to the consumer (engine/engine.go).
use Prim.Native.String.{String}
use gossip_mesh.Base.{ℕ, ◌+◌, List, [], ◌∷◌, ◌++◌, length, ltb, ◌==◌, if◌then◌else◌}
use gossip_mesh.Base.Int.{ℤ, or_default}
use gossip_mesh.Seen.{SeenTracker, TopicSeq, store, set_topic_seq}
use gossip_mesh.Seen
use gossip_mesh.Ordered.{Slot, Item, receive, set_next_seq, next_of, idle_slot}
use gossip_mesh.Repair.{Cache}
use gossip_mesh.LazyBuffer.{LazyBuffer}
use gossip_mesh.Overlay.{Overlay}
use gossip_mesh.Wire.Entry.{GossipEntry}

-- Times are left out: the handlers do not read them.
pub record EngineConfig : Type 0 where
  pub max_gap_buffer : ℤ
  pub deliver_buffer_size : ℤ

pub record EngineStats : Type 0 where
  pub eager_recv : ℕ
  pub eager_dup : ℕ
  pub lazy_recv : ℕ
  pub lazy_dup : ℕ
  pub local_enqueue : ℕ
  pub deliver_drop : ℕ
  pub deliver_count : ℕ
  pub eager_send : ℕ
  pub eager_fail : ℕ
  pub lazy_send : ℕ
  pub lazy_fail : ℕ
  pub eager_bytes_sent : ℕ
  pub lazy_bytes_sent : ℕ
  pub bytes_recv : ℕ

unfoldable pub zero_stats : EngineStats
zero_stats = record {
  eager_recv = 0;
  eager_dup = 0;
  lazy_recv = 0;
  lazy_dup = 0;
  local_enqueue = 0;
  deliver_drop = 0;
  deliver_count = 0;
  eager_send = 0;
  eager_fail = 0;
  lazy_send = 0;
  lazy_fail = 0;
  eager_bytes_sent = 0;
  lazy_bytes_sent = 0;
  bytes_recv = 0;
}

-- One call of SendDatagram, or one send on the persistent stream to an address.
pub data Sent : Type 0 where
  datagram on_stream : String → List ℕ → Sent

pub record GossipEngine : Type 0 where
  pub overlay : Overlay
  pub seen : SeenTracker
  pub slots : ℕ → Slot
  pub cache : Cache
  pub lazy_buffers : List (String × LazyBuffer)
  pub eager_streams : List String
  pub deliver_ch : List GossipEntry
  pub max_gap_buffer : ℕ
  pub deliver_buffer_size : ℕ
  pub sent : List Sent
  pub stats : EngineStats

unfoldable pub new : Overlay → EngineConfig → GossipEngine
new o c = record {
  overlay = o;
  seen = Seen.empty;
  slots = λ t. idle_slot;
  cache = [];
  lazy_buffers = [];
  eager_streams = [];
  deliver_ch = [];
  max_gap_buffer = or_default c.max_gap_buffer 64;
  deliver_buffer_size = or_default c.deliver_buffer_size 256;
  sent = [];
  stats = zero_stats;
}

-- The callback of the ordered applier: a full channel drops the entry.
unfoldable pub deliver : GossipEngine → ℕ → Item → GossipEngine
deliver g topic i =
    let st : EngineStats = g.stats in
    if ltb (length g.deliver_ch) g.deliver_buffer_size
    then record g {
      deliver_ch = g.deliver_ch ++ record { topic = topic; seq = i.0; payload = i.1 } ∷ [];
      stats = record st { deliver_count = st.deliver_count + 1 };
    }
    else record g { stats = record st { deliver_drop = st.deliver_drop + 1 } }

unfoldable pub deliver_all : GossipEngine → ℕ → List Item → GossipEngine
deliver_all g topic [] = g
deliver_all g topic (i ∷ is) = deliver_all (deliver g topic i) topic is

abbrev pub set_slot : (ℕ → Slot) → ℕ → Slot → ℕ → Slot
set_slot slots topic s t = if t == topic then s else slots t

-- The applier's Receive, with its deliveries.
unfoldable pub apply : GossipEngine → GossipEntry → GossipEngine
apply g e =
    let r : Slot × List Item = receive g.max_gap_buffer (g.slots e.topic) e.seq e.payload in
    deliver_all (record g { slots = set_slot g.slots e.topic r.0 }) e.topic r.1

-- SetInitialSeq.
unfoldable pub set_initial_seq : GossipEngine → ℕ → ℕ → GossipEngine
set_initial_seq g topic seq = record g {
  seen = set_topic_seq g.seen topic seq;
  slots = set_slot g.slots topic (set_next_seq (g.slots topic) (next_of seq));
}
