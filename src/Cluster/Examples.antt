-- ===== src/Cluster/Examples.antt =====
-- Two nodes that are eager peers of each other.
use Prim.Native.String.{String}
use text.Mathlib.Text.{◌==◌ as str_eq}
use text.Mathlib.TextEquality.{eq_iff}
use gossip_mesh.Base.{
  ◌≤◌, ◌≡◌, ◌≢◌, ◌⊎◌, refl, ◌∙◌, subst, some, arith, true, false, List, [], ◌∷◌, All, inl, inr,
  if◌then◌else◌, Bool-cases,
}
use gossip_mesh.Base.Int.{pos}
use gossip_mesh.Base.Table.{string_key, lookup, insert}
use gossip_mesh.Seen
use gossip_mesh.Seen.{TopicSeq, should_process}
use gossip_mesh.Repair.{Cache}
use gossip_mesh.Overlay.{Overlay, OverlayPeer}
use gossip_mesh.Wire.Entry.{GossipEntry}
use gossip_mesh.Base.Bytes.{put_be, get_be}
use gossip_mesh.Ordered.{
  receive, idle_slot, deliver_and_drain, drain_pending, drain_loop, rearm, start_timer,
}
use gossip_mesh.Wire.Eager.{encode_eager_message, decode_eager_message}
use gossip_mesh.Transport.Dispatch.{receive_datagram, register_uni_handler, set_handlers}
use gossip_mesh.Engine.State.{new, zero_stats, apply, deliver, deliver_all}
use gossip_mesh.Engine.Forward.{
  forward_one, forward_to, eager_forward, enqueue_to, enqueue_for_lazy,
}
use gossip_mesh.Engine.Handlers.{World, accept, handle_local, receive_eager, on_eager_receive}
use gossip_mesh.Engine.Wiring.{arrive, run_call, engine_handlers}
use gossip_mesh.Cluster.{
  Cluster, ClusterEvent, publish, arrives, cluster_run, cluster_step, advance,
}
use gossip_mesh.Cluster.Effects.{mark}
use gossip_mesh.Cluster.Wire.{IsPeer, Fits}
use gossip_mesh.Cluster.Covered.{IsStable, IsCluster}
use gossip_mesh.Cluster.Convergence.{here, next, cluster_converges}

abbrev head_key : Cache → TopicSeq
head_key [] = record { topic = 0; seq = 0 }
head_key ((k, p) ∷ c) = k

abbrev up : World
up = record { first_key = head_key; link = λ m. true; decompress = λ bytes. some bytes }

abbrev peer_x : OverlayPeer
peer_x = record { node_id = "x"; addr = "10.0.0.1:7001"; rtt = 1; is_eager = true }

abbrev peer_y : OverlayPeer
peer_y = record { node_id = "y"; addr = "10.0.0.2:7001"; rtt = 1; is_eager = true }

abbrev peers : String → List OverlayPeer
peers a =
    if str_eq a "10.0.0.1:7001"
    then peer_y ∷ []
    else if str_eq a "10.0.0.2:7001"
    then peer_x ∷ []
    else []

abbrev overlay_at : String → Overlay
overlay_at a = record {
  cfg = record { min_eager = 1; max_eager = 2; min_lazy = 1; max_lazy = 2 };
  self = "";
  eager_peers = peers a;
  lazy_peers = [];
}

abbrev start : Cluster
start = record {
  engines =
      λ a. new (overlay_at a) (record { max_gap_buffer = pos 0; deliver_buffer_size = pos 0 });
  wire = [];
}

abbrev InUse : String → Type 0
InUse a = (a ≡ "10.0.0.1:7001") ⊎ (a ≡ "10.0.0.2:7001")

differ : (a b : String) → str_eq a b ≡ false → a ≢ b
differ a b e same = ground (arith, eq_iff a b, same, e)

-- Whatever holds for both lists of peers and for none.
peers_all :
    (P : List OverlayPeer → Type 0) (a : String)
    → P (peer_y ∷ [])
    → P (peer_x ∷ [])
    → P []
    → P (peers a)
peers_all P a y x n = elim (Bool-cases (str_eq a "10.0.0.1:7001")) [
  | inl first ↦ rw first y
  | inr other ↦ elim (Bool-cases (str_eq a "10.0.0.2:7001")) [
    | inl second ↦ rw (other, second) x
    | inr neither ↦ rw (other, neither) n
  ]
]

only_peer : (q p : OverlayPeer) → InUse q.addr → IsPeer p (q ∷ []) → InUse p.addr
only_peer q p used (inl same) = subst (λ (x : OverlayPeer). InUse x.addr) same used
only_peer q p used (inr none_there) = elim none_there [ ]

no_address : (b id : String) → id ≢ "10.0.0.1:7001" → id ≢ "10.0.0.2:7001" → InUse b → id ≢ b
no_address b id n1 n2 (inl e) same = n1 (same ∙ e)
no_address b id n1 n2 (inr e) same = n2 (same ∙ e)

stable : IsStable up peers InUse
stable = record {
  up = λ m. refl;
  addressed = λ a p.
      peers_all (λ ps. IsPeer p ps → InUse p.addr) a (only_peer peer_y p (inr refl))
        (only_peer peer_x p (inl refl)) (λ none_there. elim none_there [ ]);
  unnamed = λ a b used.
      peers_all (All (λ p. p.node_id ≢ b)) a
        (no_address b "y" (differ _ _ refl) (differ _ _ refl) used, tt)
        (no_address b "x" (differ _ _ refl) (differ _ _ refl) used, tt) tt;
  unnamed_local =
      λ a. peers_all (All (λ p. p.node_id ≢ "")) a (differ _ _ refl, tt) (differ _ _ refl, tt) tt;
}

start-IsCluster : IsCluster up peers InUse stable start
unfolding new
start-IsCluster = record {
  fixed = λ a. refl;
  messages = tt;
  covered = λ a p peer t. inl (omega arith);
}

abbrev one_entry : GossipEntry
one_entry = record { topic = 3; seq = 258; payload = 5 ∷ [] }

-- The entry arrives at the other node, which sends it back.
abbrev round_trip : List ClusterEvent
round_trip = publish "10.0.0.1:7001" one_entry ∷ arrives 0 ∷ arrives 0 ∷ []

fits : Fits one_entry
fits = (
  record {
    topic_fits = omega arith;
    seq_fits = omega arith;
    payload_fits = omega arith;
    payload_bytes = (omega arith, tt);
  },
  omega arith,
)

all_arrived : (cluster_run up start round_trip).wire ≡ []
unfolding cluster_run cluster_step advance new handle_local enqueue_for_lazy eager_forward
    forward_to forward_one encode_eager_message put_be arrive run_call receive_datagram
    engine_handlers register_uni_handler set_handlers on_eager_receive decode_eager_message get_be
    insert lookup enqueue_to accept receive_eager apply deliver deliver_all receive should_process
    Seen.empty idle_slot zero_stats deliver_and_drain drain_pending drain_loop rearm start_timer
all_arrived = refl

cluster_converges_example : 258 ≤ mark ((cluster_run up start round_trip).engines "10.0.0.2:7001") 3
cluster_converges_example =
    cluster_converges up peers InUse stable start [] (arrives 0 ∷ arrives 0 ∷ []) "10.0.0.1:7001"
      "10.0.0.2:7001" one_entry start-IsCluster ((inl refl, fits), (tt, (tt, tt)))
      (next here peer_y (inl refl) refl) all_arrived
