-- ===== src/Engine/Wiring.antt =====
-- How engine.New and the transport put the handlers together (engine/engine.go, transport/transport.go), and what
-- becomes of a message that another node's engine has sent.
use Prim.Native.String.{String}
use gossip_mesh.Base.{
  ℕ, ◌+◌, ◌<◌, ◌≤◌, ◌≡◌, refl, sym, ap, ◌∙◌, arith, Option, none, some, List, [], ◌∷◌, length, ltb,
  Bool-cases, inl, inr,
}
use gossip_mesh.Base.Table.{nat_key, lookup, insert}
use mathlib.Core.List.{append-nil}
use gossip_mesh.Wire.Entry.{GossipEntry, IsEntry}
use gossip_mesh.Wire.Eager.{
  encode_eager_message, strip_type, decode-encode_eager_message, length-encode_eager_message,
}
use gossip_mesh.Wire.Frame.Batches.{max_frame}
use gossip_mesh.Wire.Frame.Streams.{
  frame, receive_eager_stream, receive-frame, strip_eager-encode, receive_cut,
}
use gossip_mesh.Wire.Frame.Writer.{stream_type_eager_stream}
use gossip_mesh.Overlay.{OverlayPeer}
use gossip_mesh.Transport.Dispatch.{
  Handlers, Call, no_handlers, set_handlers, register_uni_handler, receive_datagram,
  dispatch_uni_stream,
}
use gossip_mesh.Engine.State.{GossipEngine, Sent, datagram, on_stream}
use gossip_mesh.Engine.Forward.{message_to, max_datagram_payload}
use gossip_mesh.Engine.Handlers.{World, on_eager_receive, receive_eager, on_lazy_batch_receive}
use gossip_mesh.Engine.Dedup.{count_bytes, on_eager_receive_of, receive_eager-mark}

-- The functions that New hands to the transport.
pub data EngineHandler : Type 0 where
  eager_receive lazy_receive repair_request eager_stream : EngineHandler

-- SetHandlers and RegisterUniHandler, as New calls them.
unfoldable pub engine_handlers : Handlers EngineHandler
engine_handlers =
    register_uni_handler
      (set_handlers no_handlers (some eager_receive) (some lazy_receive) (some repair_request))
      stream_type_eager_stream eager_stream

unfoldable pub receive_messages : World → GossipEngine → String → List (List ℕ) → GossipEngine
receive_messages w g from [] = g
receive_messages w g from (m ∷ ms) = receive_messages w (on_eager_receive w g from m) from ms

-- What a call does to the engine; a repair request only reads.
unfoldable pub run_call : World → GossipEngine → Option (Call EngineHandler) → GossipEngine
run_call w g none = g
run_call w g (some c) = elim c.handler [
  | eager_receive ↦ on_eager_receive w g c.from c.bytes
  | lazy_receive ↦ on_lazy_batch_receive w g c.from c.bytes
  | repair_request ↦ g
  | eager_stream ↦ receive_messages w g c.from (receive_eager_stream c.bytes)
]

-- The arrival of what an engine sent: a datagram, or the first message on a stream of its own.
unfoldable pub arrive : World → GossipEngine → String → Sent → GossipEngine
arrive w g from (datagram addr msg) = run_call w g (receive_datagram engine_handlers from msg)
arrive w g from (on_stream addr msg) =
    run_call w g (dispatch_uni_stream engine_handlers from (stream_type_eager_stream ∷ frame msg))

arrive-datagram :
    (w : World) (g : GossipEngine) (from addr : String) (e : GossipEntry)
    → arrive w g from (datagram addr (encode_eager_message e))
      ≡ on_eager_receive w g from (strip_type (encode_eager_message e))
unfolding arrive run_call receive_datagram engine_handlers register_uni_handler set_handlers
    encode_eager_message
arrive-datagram w g from addr e = refl

arrive-stream :
    (w : World) (g : GossipEngine) (from addr : String) (e : GossipEntry)
    → length e.payload + 11 ≤ max_frame
    → arrive w g from (on_stream addr (encode_eager_message e))
      ≡ on_eager_receive w g from (strip_type (encode_eager_message e))
unfolding arrive run_call dispatch_uni_stream engine_handlers register_uni_handler set_handlers
    insert lookup receive_messages
arrive-stream w g from addr e small =
    let msg = encode_eager_message e in
    let read : receive_eager_stream (frame msg) ≡ strip_type msg ∷ [] =
      ap receive_eager_stream (sym (append-nil (frame msg)))
      ∙ receive-frame msg [] (omega (arith, length-encode_eager_message e, small))
      ∙ (rw (strip_eager-encode e, receive_cut [] (omega arith)) refl) in
    rw read refl

length-strip_type : (m : List ℕ) → 0 < length m → length m ≡ 1 + length (strip_type m)
length-strip_type [] h = absurd (omega arith)
length-strip_type (b ∷ bs) h = omega arith

length-strip_type-encode :
    (e : GossipEntry) → length (strip_type (encode_eager_message e)) ≡ 10 + length e.payload
length-strip_type-encode e =
    omega (arith, length-strip_type (encode_eager_message e), length-encode_eager_message e)

-- What a node's engine sends to a peer for an entry within its types, whose payload and the eleven
-- bytes before it are within the reader's limit of 16 MB, a datagram or a message on a stream,
-- makes the engine there process the entry; afterwards its mark for the topic is at or above the
-- entry's number.
pub arrive-message_to :
    (w : World) (g : GossipEngine) (from : String) (p : OverlayPeer) (e : GossipEntry)
    → IsEntry e
    → length e.payload + 11 ≤ max_frame
    → let g' = arrive w g from (message_to (encode_eager_message e) p) in
      (g' ≡ receive_eager w (count_bytes g (10 + length e.payload)) e from)
      × (e.seq ≤ g'.seen.slot_seqs e.topic)
arrive-message_to w g from p e v small =
    let msg = encode_eager_message e in
    let sent : arrive w g from (message_to msg p) ≡ on_eager_receive w g from (strip_type msg) =
      elim (Bool-cases (ltb max_datagram_payload (length msg))) [
        | inl long ↦ rw long (arrive-stream w g from p.addr e small)
        | inr short ↦ rw short (arrive-datagram w g from p.addr e)
      ] in
    let bytes : length (strip_type msg) ≡ 10 + length e.payload = length-strip_type-encode e in
    let done : arrive w g from (message_to msg p)
        ≡ receive_eager w (count_bytes g (10 + length e.payload)) e from =
      sent
      ∙ on_eager_receive_of w g from (strip_type msg) e (decode-encode_eager_message e v)
      ∙ ap (λ n. receive_eager w (count_bytes g n) e from) bytes in
    (done, rw done (receive_eager-mark w (count_bytes g (10 + length e.payload)) e from))
