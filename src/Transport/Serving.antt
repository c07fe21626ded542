-- ===== src/Transport/Serving.antt =====
-- The connections in the table and their accept loops (transport/transport.go).
use Prim.Native.String.{String}
use text.Mathlib.Text.{◌==◌ as str_eq}
use gossip_mesh.Base.{
  ℕ, ◌≡◌, ◌⊎◌, refl, ap, subst, Bool, true, false, Option, none, some, List, [], ◌∷◌, inl, inr, Any,
  Any-append_left, Any-append_right, if◌then◌else◌, Bool-cases, Option-cases, ◌==◌,
}
use gossip_mesh.Base.Table.{
  string_key, lookup, insert, delete, IsMap, insert-IsMap, delete-IsMap, lookup-insert,
  lookup-delete-some,
}
use gossip_mesh.Transport.{
  Transport, close_conn, start_accept_loop, get_connection, add_connection, store_dialed,
  get_or_dial, compare_and_delete, open_stream, send_datagram, accept_inbound, accept_loop,
  close_all, shutdown, new_transport,
}

-- The transport's calls, each with what the network does in it.
pub data TransportEvent : Type 0 where
  get : String → TransportEvent
  add : ℕ → TransportEvent
  open_to : Option ℕ → Bool → String → TransportEvent
  send_to : Option ℕ → String → TransportEvent
  accepts : List (Option ℕ × Bool) → TransportEvent
  shut_down : TransportEvent

unfoldable pub transport_step : Transport → TransportEvent → Transport
transport_step t (get addr) = (get_connection t addr).0
transport_step t (add c) = add_connection t c
transport_step t (open_to dialed opened addr) = (open_stream t dialed opened addr).0
transport_step t (send_to dialed addr) = (send_datagram t dialed addr).0
transport_step t (accepts results) = accept_loop t results
transport_step t shut_down = shutdown t

unfoldable pub transport_run : Transport → List TransportEvent → Transport
transport_run t [] = t
transport_run t (e ∷ es) = transport_run (transport_step t e) es

-- The table is a map, and until Shutdown the accept loops of every connection in it have been started.
abbrev pub Served : Transport → Type 0
Served t =
    IsMap t.app_conns
    × ((addr : String) (c : ℕ)
        → lookup addr t.app_conns ≡ some c
        → (t.closed ≡ true) ⊎ Any (λ d. d ≡ c) t.accepting)

insert-Served :
    (t : Transport) (key : String) (c : ℕ)
    → Served t
    → Served (start_accept_loop (record t { app_conns = insert key c t.app_conns }) c)
unfolding start_accept_loop
insert-Served t key c (u, v) = elim (Bool-cases t.closed) [
  | inl shut ↦
      rw (shut, start_accept_loop) (insert-IsMap key c t.app_conns u, λ a d there. inl refl)
  | inr up ↦
      rw (up, start_accept_loop)
        (
          insert-IsMap key c t.app_conns u,
          λ a d there.
              let read = lookup-insert key a c t.app_conns in
              inr (elim (Bool-cases (str_eq key a)) [
                | inl same ↦
                    let found : some c ≡ some d = cc (rw same at read, there) in
                    Any-append_right (λ e. e ≡ d) t.accepting (c ∷ [])
                      (inl (ap (λ o. elim o [ none ↦ c | some x ↦ x ]) found))
                | inr other ↦ elim (v a d (cc (rw other at read, there))) [
                  | inl shut ↦ cc (up, shut)
                  | inr started ↦ Any-append_left (λ e. e ≡ d) t.accepting (c ∷ []) started
                ]
              ]),
        )
]

delete-Served :
    (t : Transport) (key : String)
    → Served t
    → Served (record t { app_conns = delete key t.app_conns })
delete-Served t key (u, v) = (
  delete-IsMap key t.app_conns u,
  λ a c there. v a c (lookup-delete-some key a c t.app_conns u there).0,
)

get_connection-Served :
    (t : Transport) (addr : String) → Served t → Served (get_connection t addr).0
unfolding get_connection
get_connection-Served t addr v = elim (Option-cases (lookup addr t.app_conns)) [
  | inl e ↦ rw (e, get_connection) v
  | inr (c, e) ↦ elim (Bool-cases (t.ended c)) [
    | inl over ↦ rw (e, get_connection, over) (delete-Served t addr v)
    | inr live ↦ rw (e, get_connection, live) v
  ]
]

store_dialed-Served :
    (t : Transport) (addr : String) (c : ℕ) → Served t → Served (store_dialed t addr c).0
unfolding store_dialed
store_dialed-Served t addr c v = elim (Option-cases (lookup addr t.app_conns)) [
  | inl e ↦ rw (e, store_dialed) (insert-Served t addr c v)
  | inr (d, e) ↦ elim (Bool-cases (t.ended d)) [
    | inl over ↦ rw (e, store_dialed, over) (insert-Served t addr c v)
    | inr live ↦ rw (e, store_dialed, live) v
  ]
]

dialed-Served :
    (dialed : Option ℕ) (addr : String) (r : Transport × Option ℕ)
    → Served r.0
    → let after : Transport × Option ℕ = elim r.1 [
      | some c ↦ (r.0, some c)
      | none ↦ elim dialed [ none ↦ (r.0, none) | some c ↦ store_dialed r.0 addr c ]
    ] in
      Served after.0
dialed-Served dialed addr (t, some c) v = v
dialed-Served none addr (t, none) v = v
dialed-Served (some c) addr (t, none) v = store_dialed-Served t addr c v

get_or_dial-Served :
    (t : Transport) (dialed : Option ℕ) (addr : String)
    → Served t
    → Served (get_or_dial t dialed addr).0
unfolding get_or_dial
get_or_dial-Served t dialed addr v =
    dialed-Served dialed addr (get_connection t addr) (get_connection-Served t addr v)

compare_and_delete-Served :
    (t : Transport) (addr : String) (c : ℕ) → Served t → Served (compare_and_delete t addr c)
compare_and_delete-Served t addr c v = elim (Option-cases (lookup addr t.app_conns)) [
  | inl e ↦ rw (e, compare_and_delete) v
  | inr (d, e) ↦ elim (Bool-cases (d == c)) [
    | inl same ↦ rw (e, compare_and_delete, same) (delete-Served t addr v)
    | inr other ↦ rw (e, compare_and_delete, other) v
  ]
]

opened-Served :
    (opened : Bool) (addr : String) (r : Transport × Option ℕ)
    → Served r.0
    → let after : Transport × Option ℕ = elim r.1 [
      | none ↦ (r.0, none)
      | some c ↦
          if opened then (r.0, some c) else (close_conn (compare_and_delete r.0 addr c) c, none)
    ] in
      Served after.0
opened-Served opened addr (t, none) v = v
opened-Served true addr (t, some c) v = v
opened-Served false addr (t, some c) v = compare_and_delete-Served t addr c v

open_stream-Served :
    (t : Transport) (dialed : Option ℕ) (opened : Bool) (addr : String)
    → Served t
    → Served (open_stream t dialed opened addr).0
unfolding open_stream
open_stream-Served t dialed opened addr v =
    opened-Served opened addr (get_or_dial t dialed addr) (get_or_dial-Served t dialed addr v)

accept_loop-Served :
    (results : List (Option ℕ × Bool)) (t : Transport) → Served t → Served (accept_loop t results)
unfolding accept_loop accept_inbound
accept_loop-Served [] t v = v
accept_loop-Served ((none, true) ∷ rest) t v = v
accept_loop-Served ((none, false) ∷ rest) t v = accept_loop-Served rest t v
accept_loop-Served ((some c, stopping) ∷ rest) t v =
    accept_loop-Served rest _ (insert-Served t (t.remote_addr c) c v)

close_all-Served : (m : List (String × ℕ)) (t : Transport) → Served t → Served (close_all m t)
unfolding close_all
close_all-Served [] t v = v
close_all-Served ((addr, c) ∷ rest) t v =
    close_all-Served rest _ (delete-Served (close_conn t c) addr v)

transport_step-Served :
    (t : Transport) (e : TransportEvent) → Served t → Served (transport_step t e)
unfolding transport_step add_connection send_datagram shutdown
transport_step-Served t (get addr) v = get_connection-Served t addr v
transport_step-Served t (add c) v = insert-Served t (t.remote_addr c) c v
transport_step-Served t (open_to dialed opened addr) v = open_stream-Served t dialed opened addr v
transport_step-Served t (send_to dialed addr) v = get_or_dial-Served t dialed addr v
transport_step-Served t (accepts results) v = accept_loop-Served results t v
transport_step-Served t shut_down v =
    close_all-Served t.app_conns (record t { closed = true }) (v.0, λ a c there. inl refl)

transport_run_from :
    (es : List TransportEvent) (t : Transport) → Served t → Served (transport_run t es)
unfolding transport_run
transport_run_from [] t v = v
transport_run_from (e ∷ es) t v = transport_run_from es _ (transport_step-Served t e v)

-- From the transport that New returns, after any calls of its operations, one after the other, and any inbound
-- connections: the table has one entry for an address, and until Shutdown the accept loops of every
-- connection in it have been started, so that what arrives on it is read.
pub transport_run-Served :
    (context_ended : ℕ → Bool) (remote_addr : ℕ → String) (tls_given bound listening : Bool)
    (t : Transport) (es : List TransportEvent)
    → (new_transport context_ended remote_addr tls_given bound listening).1 ≡ some t
    → Served (transport_run t es)
unfolding new_transport lookup
transport_run-Served context_ended remote_addr true true true t es e =
    transport_run_from es t
      (subst Served (ap (λ o. elim o [ none ↦ t | some x ↦ x ]) e) (tt, λ a c there. cc there))
transport_run-Served context_ended remote_addr true true false t es e = cc e
transport_run-Served context_ended remote_addr true false listening t es e = cc e
transport_run-Served context_ended remote_addr false bound listening t es e = cc e
