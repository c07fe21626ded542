-- ===== src/Transport/Closing.antt =====
-- Shutdown (transport/transport.go).
use Prim.Native.String.{String}
use text.Mathlib.TextEquality.{eq_iff}
use gossip_mesh.Base.{ℕ, ◌≡◌, refl, arith, true, List, [], ◌∷◌, All}
use gossip_mesh.Base.Table.{string_key, delete}
use gossip_mesh.Transport.{Transport, close_conn, start_accept_loop, close_all, shutdown}

close_all_lem :
    (m : List (String × ℕ)) (t : Transport)
    → All (λ (e : String × ℕ). (close_all m t).ended e.1 ≡ true) m
      × ((c : ℕ) → t.ended c ≡ true → (close_all m t).ended c ≡ true)
      × ((close_all m t).closed ≡ t.closed)
unfolding close_all
close_all_lem [] t = (tt, λ c e. e, refl)
close_all_lem ((addr, c) ∷ rest) t =
    let t' : Transport = record (close_conn t c) { app_conns = delete addr t.app_conns } in
    let (gone, keeps, shut) = close_all_lem rest t' in
    ((keeps c (ground arith), gone), λ d e. keeps d (ground arith), shut)

close_all-nil :
    (m : List (String × ℕ)) (t : Transport) → t.app_conns ≡ m → (close_all m t).app_conns ≡ []
unfolding close_all delete
close_all-nil [] t e = e
close_all-nil ((addr, c) ∷ rest) t e =
    close_all-nil rest (record (close_conn t c) { app_conns = delete addr t.app_conns })
      (rw (e, delete, (eq_iff addr addr).1 refl) refl)

-- After Shutdown the table is empty, every connection that was in it has ended, and no accept loop
-- is started any more.
pub shutdown_lem :
    (t : Transport) (c : ℕ)
    → ((shutdown t).app_conns ≡ [])
      × All (λ (e : String × ℕ). (shutdown t).ended e.1 ≡ true) t.app_conns
      × (start_accept_loop (shutdown t) c ≡ shutdown t)
unfolding shutdown start_accept_loop
shutdown_lem t c =
    let t' : Transport = record t { closed = true } in
    let (gone, _, shut) = close_all_lem t.app_conns t' in
    (close_all-nil t.app_conns t' refl, gone, rw shut refl)
