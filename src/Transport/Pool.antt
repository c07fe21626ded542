-- ===== src/Transport/Pool.antt =====
-- The table of connections under one caller at a time (transport/transport.go).
use Prim.Native.String.{String}
use text.Mathlib.Text.{◌==◌ as str_eq}
use text.Mathlib.TextEquality.{eq_iff}
use gossip_mesh.Base.{
  ℕ, ◌≡◌, refl, ap, subst, ◌∙◌, arith, true, false, Option, none, some, inl, inr, if◌then◌else◌,
  Bool-cases, Option-cases, ==_iff,
}
use gossip_mesh.Base.Table.{
  string_key, lookup, insert, delete, lookup-insert, lookup-delete, IsMap, insert-IsMap,
  delete-IsMap,
}
use gossip_mesh.Transport.{
  Transport, start_accept_loop, get_connection, store_dialed, get_or_dial, compare_and_delete,
  open_stream,
}

-- A connection that is found is in the table and has not ended; where none is found, the table has
-- none afterwards. Nothing else changes.
pub get_connection_lem :
    (t : Transport) (addr other : String)
    → IsMap t.app_conns
    → let (t', found) = get_connection t addr in
      (lookup addr t'.app_conns ≡ found)
      × (lookup other t'.app_conns
          ≡ (if str_eq addr other then found else lookup other t.app_conns))
      × (t'.ended ≡ t.ended)
unfolding get_connection
get_connection_lem t addr other u = elim (Option-cases (lookup addr t.app_conns)) [
  | inl e ↦ rw (e, get_connection) (e, ground (arith, eq_iff addr other), refl)
  | inr (c, e) ↦ elim (Bool-cases (t.ended c)) [
    | inl dead ↦
        rw (e, get_connection, dead)
          (
            lookup-delete addr addr t.app_conns u ∙ rw ((eq_iff addr addr).1 refl) refl,
            lookup-delete addr other t.app_conns u,
            refl,
          )
    | inr live ↦ rw (e, get_connection, live) (e, ground (arith, eq_iff addr other), refl)
  ]
]

found_live :
    (t : Transport) (addr : String) (c : ℕ) → (get_connection t addr).1 ≡ some c → t.ended c ≡ false
unfolding get_connection
found_live t addr c h = elim (Option-cases (lookup addr t.app_conns)) [
  | inl e ↦ cc (rw (e, get_connection) at h)
  | inr (d, e) ↦ elim (Bool-cases (t.ended d)) [
    | inl dead ↦ cc (rw (e, get_connection, dead) at h)
    | inr live ↦ let same : some d ≡ some c = rw (e, get_connection, live) at h in cc (same, live)
  ]
]

pub start_accept_loop_keeps :
    (t : Transport) (c : ℕ)
    → ((start_accept_loop t c).app_conns ≡ t.app_conns) × ((start_accept_loop t c).ended ≡ t.ended)
unfolding start_accept_loop
start_accept_loop_keeps t c = elim (Bool-cases t.closed) [
  | inl e ↦ rw e (refl, refl)
  | inr e ↦ rw e (refl, refl)
]

store_dialed_fresh :
    (t : Transport) (addr : String) (c : ℕ)
    → lookup addr t.app_conns ≡ none
    → store_dialed t addr c
      ≡ (start_accept_loop (record t { app_conns = insert addr c t.app_conns }) c, some c)
unfolding store_dialed
store_dialed_fresh t addr c e = rw (e, store_dialed)

-- What a call that returns a connection leaves behind.
abbrev pub Serves : Transport → Transport → String → ℕ → String → Type 0
Serves t t' addr c other =
    (lookup addr t'.app_conns ≡ some c)
    × (t'.ended c ≡ false)
    × (lookup other t'.app_conns ≡ (if str_eq addr other then some c else lookup other t.app_conns))

stored-Serves :
    (t t1 : Transport) (addr other : String) (c : ℕ)
    → (lookup other t1.app_conns ≡ (if str_eq addr other then none else lookup other t.app_conns))
    → t1.ended c ≡ false
    → Serves t
        (start_accept_loop (record t1 { app_conns = insert addr c t1.app_conns }) c)
        addr
        c
        other
stored-Serves t t1 addr other c same live =
    let stored : Transport = record t1 { app_conns = insert addr c t1.app_conns } in
    let (table, ends) = start_accept_loop_keeps stored c in
    rw (table, ends)
      (
        lookup-insert addr addr c t1.app_conns ∙ rw ((eq_iff addr addr).1 refl) refl,
        live,
        ground (arith, lookup-insert addr other c t1.app_conns, same),
      )

some-inj : (d c : ℕ) → some d ≡ some c → d ≡ c
some-inj d c e = cc

-- If the dialled connection has not ended, the connection that getOrDial returns is the one in the
-- table for the address afterwards, and has not ended; the table's other entries are as before.
pub get_or_dial-Serves :
    (t : Transport) (dialed : Option ℕ) (addr other : String) (c : ℕ)
    → IsMap t.app_conns
    → ((d : ℕ) → dialed ≡ some d → t.ended d ≡ false)
    → (get_or_dial t dialed addr).1 ≡ some c
    → Serves t (get_or_dial t dialed addr).0 addr c other
unfolding get_or_dial
get_or_dial-Serves t dialed addr other c u fresh h =
    let (t1, found) = get_connection t addr in
    let (here, there, ends) = get_connection_lem t addr other u in
    elim (Option-cases (get_connection t addr).1) [
      | inr (d, e) ↦
          let same : some d ≡ some c = rw (e, get_or_dial) at h in
          let same' : (get_connection t addr).1 ≡ some c = e ∙ same in
          rw (e, get_or_dial)
            (here ∙ same', ap (λ f. f c) ends ∙ found_live t addr c same', there ∙ rw same' refl)
      | inl e ↦ elim (Option-cases dialed) [
        | inl failed ↦ cc (rw (e, failed, get_or_dial) at h)
        | inr (d, ok) ↦
            let step = store_dialed_fresh t1 addr d (here ∙ e) in
            let same : some d ≡ some c = rw (e, ok, get_or_dial, step) at h in
            rw (e, ok, get_or_dial, step)
              (subst
                (λ x.
                  Serves t
                    (start_accept_loop (record t1 { app_conns = insert addr d t1.app_conns }) d)
                    addr x other)
                (some-inj d c same)
                (stored-Serves t t1 addr other d (there ∙ rw e refl)
                  (ap (λ f. f d) ends ∙ fresh d ok)))
      ]
    ]

get_connection-IsMap :
    (t : Transport) (addr : String) → IsMap t.app_conns → IsMap (get_connection t addr).0.app_conns
unfolding get_connection
get_connection-IsMap t addr u = elim (Option-cases (lookup addr t.app_conns)) [
  | inl e ↦ rw (e, get_connection) u
  | inr (c, e) ↦ elim (Bool-cases (t.ended c)) [
    | inl dead ↦ rw (e, get_connection, dead) (delete-IsMap addr t.app_conns u)
    | inr live ↦ rw (e, get_connection, live) u
  ]
]

store_dialed-IsMap :
    (t : Transport) (addr : String) (c : ℕ)
    → IsMap t.app_conns
    → IsMap (store_dialed t addr c).0.app_conns
unfolding store_dialed
store_dialed-IsMap t addr c u =
    let stored : Transport = record t { app_conns = insert addr c t.app_conns } in
    let started : IsMap (start_accept_loop stored c).app_conns =
      rw (start_accept_loop_keeps stored c).0 (insert-IsMap addr c t.app_conns u) in
    elim (Option-cases (lookup addr t.app_conns)) [
      | inl e ↦ rw (e, store_dialed) started
      | inr (d, e) ↦ elim (Bool-cases (t.ended d)) [
        | inl dead ↦ rw (e, store_dialed, dead) started
        | inr live ↦ rw (e, store_dialed, live) u
      ]
    ]

-- The table keeps one connection for each address.
pub get_or_dial-IsMap :
    (t : Transport) (dialed : Option ℕ) (addr : String)
    → IsMap t.app_conns
    → IsMap (get_or_dial t dialed addr).0.app_conns
unfolding get_or_dial
get_or_dial-IsMap t dialed addr u =
    let found = get_connection-IsMap t addr u in
    elim (Option-cases (get_connection t addr).1) [
      | inr (d, e) ↦ rw (e, get_or_dial) found
      | inl e ↦ elim (Option-cases dialed) [
        | inl failed ↦ rw (e, failed, get_or_dial) found
        | inr (d, ok) ↦
            rw (e, ok, get_or_dial) (store_dialed-IsMap (get_connection t addr).0 addr d found)
      ]
    ]

compare_and_delete_hit :
    (t : Transport) (addr : String) (c : ℕ)
    → lookup addr t.app_conns ≡ some c
    → compare_and_delete t addr c ≡ record t { app_conns = delete addr t.app_conns }
compare_and_delete_hit t addr c e = rw (e, compare_and_delete, (==_iff c c).1 refl) refl

-- Where no stream could be opened, OpenStream and OpenUniStream leave no entry for the address and end
-- the connection, so that the next call dials anew; the table's other entries are as before.
pub open_stream-failed :
    (t : Transport) (dialed : Option ℕ) (addr other : String) (c : ℕ)
    → IsMap t.app_conns
    → ((d : ℕ) → dialed ≡ some d → t.ended d ≡ false)
    → (get_or_dial t dialed addr).1 ≡ some c
    → let (t', result) = open_stream t dialed false addr in
      (result ≡ none)
      × (t'.ended c ≡ true)
      × (lookup other t'.app_conns ≡ (if str_eq addr other then none else lookup other t.app_conns))
unfolding open_stream
open_stream-failed t dialed addr other c u fresh h =
    let t1 = (get_or_dial t dialed addr).0 in
    let (here, _, there) = get_or_dial-Serves t dialed addr other c u fresh h in
    rw (h, open_stream, compare_and_delete_hit t1 addr c here)
      (
        refl,
        rw ((==_iff c c).1 refl) refl,
        lookup-delete addr other t1.app_conns (get_or_dial-IsMap t dialed addr u)
            ∙ ground (arith, there),
      )
