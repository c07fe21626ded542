-- ===== src/Relay/Examples.antt =====
-- A request for a node with a short id, and for one with a long id.
use gossip_mesh.Base.{ℕ, ◌≡◌, arith, true, false, some, List, [], ◌∷◌, ◌++◌, replicate}
use gossip_mesh.Base.Table.{string_key}
use gossip_mesh.Transport.{Transport}
use gossip_mesh.Transport.Dispatch.{
  no_handlers, call_of, register_bidi_handler, dispatch_bidi_stream, stream_type_relay,
}
use gossip_mesh.Relay.{relay_header, read_target}
use gossip_mesh.Relay.Header.{dispatch-relay_header}

-- "n1", and three bytes that the client writes afterwards.
dispatch-relay_header_example :
    let stream : List ℕ = 2 ∷ 110 ∷ 49 ∷ 7 ∷ 8 ∷ 9 ∷ [] in
    (dispatch_bidi_stream
        (register_bidi_handler no_handlers stream_type_relay (tt {0}))
        "10.0.0.3:7001"
        true
        (relay_header (110 ∷ 49 ∷ []) ++ 7 ∷ 8 ∷ 9 ∷ [])
      ≡ (call_of (some (tt {0})) "10.0.0.3:7001" stream, false))
    × (read_target stream ≡ some (110 ∷ 49 ∷ [], 7 ∷ 8 ∷ 9 ∷ []))
dispatch-relay_header_example =
    dispatch-relay_header no_handlers (tt {0}) "10.0.0.3:7001" true (110 ∷ 49 ∷ []) (7 ∷ 8 ∷ 9 ∷ [])
      (omega arith) (omega arith)

abbrev long_id : List ℕ
long_id = replicate 257 97

abbrev one_connection : Transport
one_connection = record {
  app_conns = ("10.0.0.2:7001", 1) ∷ [];
  ended = λ c. false;
  remote_addr = λ c. "10.0.0.2:7001";
  accepting = 1 ∷ [];
  closed = false;
}
