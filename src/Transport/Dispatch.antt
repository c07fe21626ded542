-- ===== src/Transport/Dispatch.antt =====
-- The handlers of transport/transport.go and the dispatch of what arrives to them by its first byte, with the
-- type bytes of transport/dispatch.go. A handler is a name of any type `H`; a call is the handler with what
-- it is given. A stream is the list of its bytes, and whether it can be read to its end is an argument.
use Prim.Native.String.{String}
use gossip_mesh.Base.{ℕ, ◌==◌, Bool, true, false, Option, none, some, List, [], ◌∷◌, if◌then◌else◌}
use gossip_mesh.Base.Table.{nat_key, lookup, insert}
use gossip_mesh.Wire.Eager.{msg_type_eager_gossip}
use gossip_mesh.Repair.{stream_type_repair}

abbrev pub stream_type_lazy_batch : ℕ
stream_type_lazy_batch = 0x11

abbrev pub stream_type_relay : ℕ
stream_type_relay = 0x40

abbrev pub msg_type_addr_reflect : ℕ
msg_type_addr_reflect = 0x30

-- A gossip handler is none until SetHandlers has set it.
pub record Handlers (H : Type 0) : Type 0 where
  pub on_eager_gossip : Option H
  pub on_lazy_batch : Option H
  pub on_repair : Option H
  pub bidi_handlers : List (ℕ × H)
  pub uni_handlers : List (ℕ × H)
  pub datagram_handlers : List (ℕ × H)

pub record Call (H : Type 0) : Type 0 where
  pub handler : H
  pub from : String
  pub bytes : List ℕ

abbrev pub no_handlers : {H : Type 0} → Handlers H
no_handlers = record {
  on_eager_gossip = none;
  on_lazy_batch = none;
  on_repair = none;
  bidi_handlers = [];
  uni_handlers = [];
  datagram_handlers = [];
}

module _ {H : Type 0} where
  unfoldable pub set_handlers : Handlers H → Option H → Option H → Option H → Handlers H
  set_handlers h eager lazy repair = record h {
    on_eager_gossip = eager;
    on_lazy_batch = lazy;
    on_repair = repair;
  }

  unfoldable pub register_bidi_handler : Handlers H → ℕ → H → Handlers H
  register_bidi_handler h type_byte f = record h {
    bidi_handlers = insert type_byte f h.bidi_handlers;
  }

  unfoldable pub register_uni_handler : Handlers H → ℕ → H → Handlers H
  register_uni_handler h type_byte f = record h { uni_handlers = insert type_byte f h.uni_handlers }

  unfoldable pub register_datagram_handler : Handlers H → ℕ → H → Handlers H
  register_datagram_handler h type_byte f = record h {
    datagram_handlers = insert type_byte f h.datagram_handlers;
  }

  -- The call of a handler, if there is one.
  abbrev pub call_of : Option H → String → List ℕ → Option (Call H)
  call_of none from bytes = none
  call_of (some f) from bytes = some (record { handler = f; from = from; bytes = bytes })

  -- One round of receiveDatagrams.
  unfoldable pub receive_datagram : Handlers H → String → List ℕ → Option (Call H)
  receive_datagram h from [] = none
  receive_datagram h from (type_byte ∷ rest) =
      if type_byte == msg_type_eager_gossip
      then call_of h.on_eager_gossip from rest
      else call_of (lookup type_byte h.datagram_handlers) from rest

  -- The call, and whether the dispatcher itself closes the stream.
  unfoldable pub dispatch_bidi_stream : Handlers H → String → Bool → List ℕ → Option (Call H) × Bool
  dispatch_bidi_stream h from readable [] = (none, true)
  dispatch_bidi_stream h from readable (type_byte ∷ rest) =
      let custom : Option H = lookup type_byte h.bidi_handlers in
      let closes : Option H → Bool = λ f. elim f [ none ↦ true | some g ↦ false ] in
      if type_byte == stream_type_repair
      then (call_of h.on_repair from rest, closes h.on_repair)
      else if type_byte == msg_type_eager_gossip
      then (if readable then call_of h.on_eager_gossip from rest else none, true)
      else (call_of custom from rest, closes custom)

  unfoldable pub dispatch_uni_stream : Handlers H → String → List ℕ → Option (Call H)
  dispatch_uni_stream h from [] = none
  dispatch_uni_stream h from (type_byte ∷ rest) =
      if type_byte == stream_type_lazy_batch
      then call_of h.on_lazy_batch from rest
      else call_of (lookup type_byte h.uni_handlers) from rest
