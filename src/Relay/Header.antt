-- ===== src/Relay/Header.antt =====
-- The relay's request from the client's write to the handler (relay/client.go, relay/relay.go,
-- transport/transport.go).
use Prim.Native.String.{String}
use gossip_mesh.Base.{
  ℕ, ◌%◌, ◌<◌, ◌≤◌, ◌≡◌, ◌≢◌, refl, ap, arith, Bool, false, none, some, List, [], ◌∷◌, ◌++◌, length,
  length-append, length-take, take, drop, ltb, ne_==, le→ltb, Option-cases, inl, inr,
}
use gossip_mesh.Base.Table.{nat_key, string_key, lookup, lookup-insert-same}
use gossip_mesh.Transport.{Transport, get_connection}
use gossip_mesh.Transport.Dispatch.{
  Handlers, call_of, register_bidi_handler, dispatch_bidi_stream, stream_type_relay,
}
use gossip_mesh.Relay.{relay_header, read_target, handle_relay}

take_all : (xs ys : List ℕ) → take (length xs) (xs ++ ys) ≡ xs
take_all [] ys = refl
take_all (x ∷ xs) ys = ap (λ zs. x ∷ zs) (take_all xs ys)

drop_all : (xs ys : List ℕ) → drop (length xs) (xs ++ ys) ≡ ys
drop_all [] ys = refl
drop_all (x ∷ xs) ys = drop_all xs ys

-- On a transport where the relay's handler is registered, the stream of a request for an id of 1 to 255
-- bytes is handed to that handler, which reads the id from it, and whatever the client writes afterwards
-- is left to be copied.
pub dispatch-relay_header :
    {H : Type 0} (h : Handlers H) (f : H) (from : String) (readable : Bool) (id rest : List ℕ)
    → 0 < length id
    → length id < 256
    → let stream = length id % 256 ∷ id ++ rest in
      (dispatch_bidi_stream
          (register_bidi_handler h stream_type_relay f)
          from
          readable
          (relay_header id ++ rest)
        ≡ (call_of (some f) from stream, false))
      × (read_target stream ≡ some (id, rest))
unfolding dispatch_bidi_stream register_bidi_handler relay_header read_target
dispatch-relay_header h f from readable id rest some_bytes few =
    let size : length id % 256 ≡ length id = omega (arith, few) in
    let enough : ltb (length (id ++ rest)) (length id) ≡ false =
      le→ltb (length (id ++ rest)) (length id) (omega (arith, length-append id rest)) in
    (
      rw (lookup-insert-same stream_type_relay f h.bidi_handlers) refl,
      rw
          (
            size,
            ne_== (length id) 0 (λ e. omega (arith, e, some_bytes)),
            enough,
            take_all id rest,
            drop_all id rest,
          )
          refl,
    )

-- For an id of 256 bytes or more the handler reads another id, or none.
pub read_target_long :
    (id rest : List ℕ) (read : List ℕ × List ℕ)
    → 256 ≤ length id
    → read_target (length id % 256 ∷ id ++ rest) ≡ some read
    → read.0 ≢ id
unfolding read_target
read_target_long id rest read long e same =
    let cut = length-take (length id % 256) (id ++ rest) in
    ground (arith, e, same, long, cut, ap length same)

-- While the table has no connection under the empty address, no relay request gets any further: whatever
-- stream it comes on, the handler opens none to a target.
pub handle_relay_never :
    (t : Transport) (opened written : Bool) (source_id stream : List ℕ)
    → lookup "" t.app_conns ≡ none
    → handle_relay t opened written source_id stream ≡ (t, none)
unfolding handle_relay get_connection
handle_relay_never t opened written source_id stream e =
    let none_found : (get_connection t "").1 ≡ none = rw (e, get_connection) refl in
    let same : (get_connection t "").0 ≡ t = rw (e, get_connection) refl in
    elim (Option-cases (read_target stream)) [
      | inl bad ↦ rw (bad, handle_relay) refl
      | inr (r, good) ↦ rw (good, handle_relay, none_found) (ap (λ t'. (t', none)) same)
    ]
