-- ===== src/Transport/Dial.antt =====
-- Concurrent callers of getOrDial (transport/transport.go): each goroutine is at one point of the call, and a
-- schedule says which one makes the next atomic access to the table or to a connection.
mod Points
pub mod Unique
pub mod Evicted
use Prim.Native.String.{String}
use gossip_mesh.Base.{ℕ, ◌==◌, Bool, true, false, Option, none, some, List, [], ◌∷◌, if◌then◌else◌}
use gossip_mesh.Base.Table.{string_key, lookup, insert, delete}
use gossip_mesh.Transport.{Transport, close_conn, start_accept_loop}

-- Before GetConnection's load; after it; before its Delete; before the dial; before LoadOrStore; with
-- another's connection, before the look at it; before the Store over it; before the accept loops;
-- returned.
pub data Pc : Type 0 where
  starting : Pc
  looking stale : ℕ → Pc
  missed : Pc
  dialed : ℕ → Pc
  beaten : ℕ → ℕ → Pc
  replacing serving : ℕ → Pc
  returned : Option ℕ → Pc

-- The next atomic step of one call for `addr`, in which the dial gives `result`.
unfoldable pub dial_step : String → Option ℕ → Transport → Pc → Transport × Pc
dial_step addr result t starting = elim (lookup addr t.app_conns) [
  | none ↦ (t, missed)
  | some c ↦ (t, looking c)
]
dial_step addr result t (looking c) = if t.ended c then (t, stale c) else (t, returned (some c))
dial_step addr result t (stale c) = (record t { app_conns = delete addr t.app_conns }, missed)
dial_step addr result t missed = elim result [ none ↦ (t, returned none) | some c ↦ (t, dialed c) ]
dial_step addr result t (dialed c) = elim (lookup addr t.app_conns) [
  | none ↦ (record t { app_conns = insert addr c t.app_conns }, serving c)
  | some existing ↦ (t, beaten existing c)
]
dial_step addr result t (beaten existing c) =
    if t.ended existing then (t, replacing c) else (close_conn t c, returned (some existing))
dial_step addr result t (replacing c) =
    (record t { app_conns = insert addr c t.app_conns }, serving c)
dial_step addr result t (serving c) = (start_accept_loop t c, returned (some c))
dial_step addr result t (returned r) = (t, returned r)

pub record Callers : Type 0 where
  pub transport : Transport
  pub pcs : ℕ → Pc

-- Goroutine `i` asks for the address `addrs i`, and its dial gives `results i`.
unfoldable pub callers_step : (ℕ → String) → (ℕ → Option ℕ) → Callers → ℕ → Callers
callers_step addrs results r i =
    let (t, pc) = dial_step (addrs i) (results i) r.transport (r.pcs i) in
    record { transport = t; pcs = λ j. if j == i then pc else r.pcs j }

unfoldable pub callers_run : (ℕ → String) → (ℕ → Option ℕ) → Callers → List ℕ → Callers
callers_run addrs results r [] = r
callers_run addrs results r (i ∷ is) = callers_run addrs results (callers_step addrs results r i) is

unfoldable pub callers_start : Transport → Callers
callers_start t = record { transport = t; pcs = λ i. starting }
