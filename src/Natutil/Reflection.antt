-- ===== src/Natutil/Reflection.antt =====
-- A reflection from the request to the answer (natutil/reflect.go, transport/transport.go).
use Prim.Native.String.{String}
use gossip_mesh.Base.{ℕ, ◌≡◌, refl, ap, ◌∙◌, Option, none, some, List, ◌∷◌}
use gossip_mesh.Base.Table.{nat_key, lookup-insert-same}
use gossip_mesh.Transport.Dispatch.{
  Handlers, Call, call_of, register_datagram_handler, receive_datagram, msg_type_addr_reflect,
}
use gossip_mesh.Natutil.{reflect, reflect_waiting, reflection_request}

-- What the handlers here do with a datagram that their transport has dispatched.
abbrev pub on_call : {A : Type 0} → A → (String → List ℕ → A) → Option (Call (Unit {0})) → A
on_call idle f none = idle
on_call idle f (some c) = f c.from c.bytes

dispatched :
    {H : Type 0} (h : Handlers H) (f : H) (from : String) (bytes : List ℕ)
    → receive_datagram
        (register_datagram_handler h msg_type_addr_reflect f)
        from
        (msg_type_addr_reflect ∷ bytes)
      ≡ call_of (some f) from bytes
unfolding receive_datagram register_datagram_handler
dispatched h f from bytes = rw (lookup-insert-same msg_type_addr_reflect f h.datagram_handlers) refl

-- If the bytes of an address read back as it, a node that asks a peer for a reflection, where both have installed
-- their handlers, and to which no answer has come before, gets this address, under which the peer sees it:
-- the request makes the peer send a datagram, and that datagram leaves the address in the channel.
pub reflection_answered :
    (to_bytes : String → List ℕ) (of_bytes : List ℕ → String) (asker peer : Handlers (Unit {0}))
    (seen_as peer_addr : String)
    → of_bytes (to_bytes seen_as) ≡ seen_as
    → let asking = register_datagram_handler asker msg_type_addr_reflect tt in
      let answering = register_datagram_handler peer msg_type_addr_reflect tt in
      (reply : List ℕ) × (on_call none
          (reflect to_bytes of_bytes)
          (receive_datagram answering seen_as reflection_request)
        ≡ some reply)
      × (on_call
            (none, none)
            (reflect_waiting to_bytes of_bytes none)
            (receive_datagram asking peer_addr reply)
          ≡ (some seen_as, none))
unfolding reflect reflect_waiting
reflection_answered to_bytes of_bytes asker peer seen_as peer_addr reads = (
  _,
  ap (on_call none (reflect to_bytes of_bytes)) (dispatched peer tt seen_as _),
  ap (on_call (none, none) (reflect_waiting to_bytes of_bytes none))
        (dispatched asker tt peer_addr _)
      ∙ ap (λ a. (some a, none)) reads,
)
