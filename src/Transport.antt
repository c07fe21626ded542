-- ===== src/Transport.antt =====
-- transport/transport.go: the table of application connections. A connection is named by a number; whether
-- its context has ended is a function of the name. What the network does in a call (whether an address
-- resolves, which connection a dial makes, whether a stream opens) is an argument of the call.
pub mod Pool
pub mod Closing
pub mod Serving
pub mod Dial
pub mod Dispatch
mod Examples
use Prim.Native.String.{String}
use gossip_mesh.Base.{
  ℕ, ◌==◌, Bool, true, false, not, Option, none, some, List, [], ◌∷◌, ◌++◌, if◌then◌else◌,
}
use gossip_mesh.Base.Table.{string_key, lookup, insert, delete}

pub record Transport : Type 0 where
  pub app_conns : List (String × ℕ)
  -- Whether `conn.Context().Err()` is an error.
  pub ended : ℕ → Bool
  -- `conn.RemoteAddr().String()`.
  pub remote_addr : ℕ → String
  -- The connections whose accept loops have been started, in order.
  pub accepting : List ℕ
  pub closed : Bool

-- CloseWithError ends the connection's context.
abbrev pub close_conn : Transport → ℕ → Transport
close_conn t c = record t { ended = λ d. if d == c then true else t.ended d }

unfoldable pub start_accept_loop : Transport → ℕ → Transport
start_accept_loop t c = if t.closed then t else record t { accepting = t.accepting ++ c ∷ [] }

-- The connection to an address, or none; one that has ended is taken out.
unfoldable pub get_connection : Transport → String → Transport × Option ℕ
get_connection t addr = elim (lookup addr t.app_conns) [
  | none ↦ (t, none)
  | some c ↦
      if t.ended c then (record t { app_conns = delete addr t.app_conns }, none) else (t, some c)
]

pub add_connection : Transport → ℕ → Transport
unfolding start_accept_loop
add_connection t c =
    start_accept_loop (record t { app_conns = insert (t.remote_addr c) c t.app_conns }) c

-- getOrDial from the dialled connection on: LoadOrStore, and what becomes of the two connections.
unfoldable pub store_dialed : Transport → String → ℕ → Transport × Option ℕ
unfolding start_accept_loop
store_dialed t addr c =
    let stored : Transport = record t { app_conns = insert addr c t.app_conns } in
    elim (lookup addr t.app_conns) [
      | none ↦ (start_accept_loop stored c, some c)
      | some existing ↦
          if t.ended existing
          then (start_accept_loop stored c, some c)
          else (close_conn t c, some existing)
    ]

-- `dialed` is what the resolution and the dial give: a new connection, or none after an error.
unfoldable pub get_or_dial : Transport → Option ℕ → String → Transport × Option ℕ
unfolding get_connection store_dialed
get_or_dial t dialed addr =
    let (t', found) = get_connection t addr in
    elim found [
      | some c ↦ (t', some c)
      | none ↦ elim dialed [ none ↦ (t', none) | some c ↦ store_dialed t' addr c ]
    ]

-- CompareAndDelete.
abbrev pub compare_and_delete : Transport → String → ℕ → Transport
compare_and_delete t addr c = elim (lookup addr t.app_conns) [
  | none ↦ t
  | some d ↦ if d == c then record t { app_conns = delete addr t.app_conns } else t
]

-- OpenStream and OpenUniStream: the connection on which a stream was opened. A connection on which
-- none could be opened is taken out and closed.
pub open_stream : Transport → Option ℕ → Bool → String → Transport × Option ℕ
unfolding get_or_dial
open_stream t dialed opened addr =
    let (t', conn) = get_or_dial t dialed addr in
    elim conn [
      | none ↦ (t', none)
      | some c ↦
          if opened then (t', some c) else (close_conn (compare_and_delete t' addr c) c, none)
    ]

-- SendDatagram: the connection that the datagram is handed to.
pub send_datagram : Transport → Option ℕ → String → Transport × Option ℕ
unfolding get_or_dial
send_datagram t dialed addr = get_or_dial t dialed addr

-- The body of acceptLoop for an inbound connection.
pub accept_inbound : Transport → ℕ → Transport
unfolding start_accept_loop
accept_inbound t c =
    start_accept_loop (record t { app_conns = insert (t.remote_addr c) c t.app_conns }) c

-- acceptLoop: what each Accept gives, a connection or an error, and whether the shutdown channel is closed
-- then.
pub accept_loop : Transport → List (Option ℕ × Bool) → Transport
unfolding accept_inbound
accept_loop t [] = t
accept_loop t ((none, stopping) ∷ rest) =
    let later : Transport = accept_loop t rest in if stopping then t else later
accept_loop t ((some c, stopping) ∷ rest) = accept_loop (accept_inbound t c) rest

-- New: whether the UDP socket is left open, and the transport, or none after an error.
pub new_transport : (ℕ → Bool) → (ℕ → String) → Bool → Bool → Bool → Bool × Option Transport
new_transport context_ended remote_addr tls_given bound listening =
    if not tls_given
    then (false, none)
    else if not bound
    then (false, none)
    else if not listening
    then (false, none)
    else (
      true,
      some (record {
        app_conns = [];
        ended = context_ended;
        remote_addr = remote_addr;
        accepting = [];
        closed = false;
      }),
    )

-- The range over the table in Shutdown.
pub close_all : List (String × ℕ) → Transport → Transport
close_all [] t = t
close_all ((addr, c) ∷ rest) t =
    close_all rest (record (close_conn t c) { app_conns = delete addr t.app_conns })

pub shutdown : Transport → Transport
unfolding close_all
shutdown t = close_all t.app_conns (record t { closed = true })
