-- ===== src/Engine/Examples.antt =====
-- An engine with one eager and one lazy peer.
use Prim.Native.String.{String}
use text.Mathlib.Text.{◌==◌ as str_eq}
use text.Mathlib.TextEquality.{eq_iff}
use gossip_mesh.Base.{
  ℕ, ◌≤◌, ◌≡◌, ◌≢◌, refl, arith, true, false, none, some, List, [], ◌∷◌, if◌then◌else◌,
}
use gossip_mesh.Base.Int.{pos}
use gossip_mesh.Base.Table.{lookup}
use gossip_mesh.Base.Bytes.{get_be}
use gossip_mesh.Seen.{TopicSeq, high_water_marks}
use gossip_mesh.Repair.{Cache, same_key_iff, topic_seq_key}
use gossip_mesh.Overlay.{Overlay, OverlayPeer}
use gossip_mesh.Wire.Entry.{GossipEntry, ok}
use gossip_mesh.Wire.Eager.{encode_eager_message, decode_eager_message}
use gossip_mesh.Engine.State.{GossipEngine, new}
use gossip_mesh.Engine.Forward.{message_to, enqueue_for_lazy, flush_lazy_batches}
use gossip_mesh.Engine.Handlers.{World, on_eager_receive, receive_eager}
use gossip_mesh.Engine.Dedup.{on_eager_receive_twice, count_dup, count_bytes}
use gossip_mesh.Engine.Flush.{batches_for, waiting, is_peer, flush_lazy_batches_lem}
use gossip_mesh.Engine.Run.{
  RunningEngine, EngineEvent, enqueue, take_local, lazy_tick, datagram_in, timer_fires, engine_run,
}
use gossip_mesh.Engine.Invariant.{IsEngine, new-IsEngine}
use gossip_mesh.Engine.Invariant.Events.{engine_run-IsEngine}
use gossip_mesh.Engine.Wiring.{arrive, arrive-message_to}

abbrev head_key : Cache → TopicSeq
head_key [] = record { topic = 0; seq = 0 }
head_key ((k, p) ∷ c) = k

abbrev up : World
up = record { first_key = head_key; link = λ m. true; decompress = λ bytes. some bytes }

abbrev two_peer_overlay : Overlay
two_peer_overlay = record {
  cfg = record { min_eager = 1; max_eager = 2; min_lazy = 1; max_lazy = 2 };
  self = "a";
  eager_peers = record { node_id = "b"; addr = "10.0.0.2:7000"; rtt = 1; is_eager = true } ∷ [];
  lazy_peers = record { node_id = "c"; addr = "10.0.0.3:7000"; rtt = 9; is_eager = false } ∷ [];
}

abbrev fresh_engine : GossipEngine
fresh_engine = new two_peer_overlay (record { max_gap_buffer = pos 0; deliver_buffer_size = pos 0 })

-- Topic 3 is at 300.
abbrev ahead_engine : GossipEngine
ahead_engine = record fresh_engine {
  overlay = two_peer_overlay;
  seen = record { slot_seqs = λ t. 300; active_slots = 3 ∷ [] };
}

abbrev one_entry : GossipEntry
one_entry = record { topic = 3; seq = 258; payload = 5 ∷ [] }

abbrev one_message : List ℕ
one_message = 0 ∷ 3 ∷ 0 ∷ 0 ∷ 0 ∷ 0 ∷ 0 ∷ 0 ∷ 1 ∷ 2 ∷ 5 ∷ []

other_name : (a b : String) → str_eq a b ≡ false → a ≢ b
other_name a b e same = cc (e, (eq_iff a b).1 same)

one_message_decoded : decode_eager_message one_message ≡ ok one_entry
unfolding decode_eager_message get_be
one_message_decoded = refl

on_eager_receive_twice_example :
    let once = on_eager_receive up fresh_engine "10.0.0.2:7000" one_message in
    on_eager_receive up once "10.0.0.9:7000" one_message ≡ count_dup (count_bytes once 11)
on_eager_receive_twice_example =
    on_eager_receive_twice up fresh_engine "10.0.0.2:7000" "10.0.0.9:7000" one_message one_entry
      one_message_decoded

abbrev peer_b : OverlayPeer
peer_b = record { node_id = "b"; addr = "10.0.0.2:7000"; rtt = 1; is_eager = true }

arrive-message_to_example :
    let g' =
      arrive up fresh_engine "10.0.0.1:7001" (message_to (encode_eager_message one_entry) peer_b) in
    (g' ≡ receive_eager up (count_bytes fresh_engine 11) one_entry "10.0.0.1:7001")
    × (258 ≤ g'.seen.slot_seqs 3)
arrive-message_to_example =
    arrive-message_to up fresh_engine "10.0.0.1:7001" peer_b one_entry
      (record {
        topic_fits = omega arith;
        seq_fits = omega arith;
        payload_fits = omega arith;
        payload_bytes = (omega arith, tt);
      })
      (omega arith)

head_key_found : (c : Cache) → c ≢ [] → lookup (head_key c) c ≢ none
unfolding lookup
head_key_found [] ne e = ne refl
head_key_found ((k, p) ∷ c) ne e = cc (rw ((same_key_iff k k).1 refl) at e)

-- An entry of its own, one from a peer that is early, a tick and the timer.
abbrev four_events : List EngineEvent
four_events =
    enqueue one_entry
    ∷ take_local
    ∷ datagram_in "10.0.0.2:7000" (2 ∷ one_message)
    ∷ lazy_tick
    ∷ timer_fires 3 none
    ∷ []

abbrev idle_node : RunningEngine
idle_node = record { engine = fresh_engine; local_ch = []; batches = [] }

engine_run-IsEngine_example : IsEngine (engine_run up idle_node four_events).engine
engine_run-IsEngine_example =
    engine_run-IsEngine up head_key_found idle_node four_events (
      new-IsEngine two_peer_overlay
        (record { max_gap_buffer = pos 0; deliver_buffer_size = pos 0 }))

-- One entry waits for the lazy peer.
flush_lazy_batches_lem_example :
    let g = enqueue_for_lazy ahead_engine one_entry "b" in
    let (g', batches) = flush_lazy_batches g in
    (batches ≡ batches_for (high_water_marks g.seen) (waiting g.lazy_buffers) g.overlay.lazy_peers)
    × (waiting g'.lazy_buffers "c"
        ≡ (if is_peer "c" g.overlay.lazy_peers then [] else waiting g.lazy_buffers "c"))
unfolding enqueue_for_lazy
flush_lazy_batches_lem_example =
    flush_lazy_batches_lem (enqueue_for_lazy ahead_engine one_entry "b") "c" (tt, tt)
