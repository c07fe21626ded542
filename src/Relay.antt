-- ===== src/Relay.antt =====
-- relay/: the request that asks a relay for a stream to another node (client.go), and what the relay makes of
-- it (relay.go). A node id and an address on the wire are lists of bytes; whether the streams open and take
-- the bytes is an argument. The copying between the two streams is left out.
pub mod Header
mod Examples
use Prim.Native.String.{String}
use gossip_mesh.Base.{
  ℕ, ◌%◌, ◌==◌, Bool, Option, none, some, List, [], ◌∷◌, length, take, drop, ltb, if◌then◌else◌,
}
use gossip_mesh.Transport.{Transport, get_connection, open_stream}
use gossip_mesh.Transport.Dispatch.{stream_type_relay}

-- `byte(len(id))` keeps eight bits.
unfoldable pub relay_header : List ℕ → List ℕ
relay_header id = stream_type_relay ∷ length id % 256 ∷ id

-- DialViaRelay: the bytes that go to the relay, or none after an error.
unfoldable pub dial_via_relay :
    Transport → Option ℕ → Bool → Bool → String → List ℕ → Transport × Option (List ℕ)
dial_via_relay t dialed opened written addr target_id =
    let (t', conn) = open_stream t dialed opened addr in
    elim conn [
      | none ↦ (t', none)
      | some c ↦ (t', if written then some (relay_header target_id) else none)
    ]

-- What handleRelay reads of the stream behind the type byte: the target's id, and the rest.
unfoldable pub read_target : List ℕ → Option (List ℕ × List ℕ)
read_target [] = none
read_target (id_len ∷ rest) =
    if id_len == 0
    then none
    else if ltb (length rest) id_len
    then none
    else some (take id_len rest, drop id_len rest)

abbrev pub find_addr_for_node : Transport → List ℕ → String
find_addr_for_node t node_id = ""

-- handleRelay: the connection to the target and the header that is written to it, before the copying.
unfoldable pub handle_relay :
    Transport → Bool → Bool → List ℕ → List ℕ → Transport × Option (ℕ × List ℕ)
handle_relay t opened written source_id stream = elim (read_target stream) [
  | none ↦ (t, none)
  | some (node_id, rest) ↦
      let (t', conn) = get_connection t (find_addr_for_node t node_id) in
      elim conn [
        | none ↦ (t', none)
        | some c ↦ (
          t',
          if opened then (if written then some (c, relay_header source_id) else none) else none,
        )
      ]
]
