-- ===== src/Transport/Dial/Evicted.antt =====
-- The deletion in GetConnection under two callers (transport/transport.go).
use Prim.Native.String.{String}
use text.Mathlib.TextEquality.{eq_iff}
use gossip_mesh.Base.{ℕ, ◌≡◌, refl, ◌∙◌, arith, true, false, Option, none, some, List, [], ◌∷◌}
use gossip_mesh.Base.Table.{
  string_key, lookup, insert, delete, lookup-delete, IsMap, insert-IsMap, delete-IsMap,
}
use gossip_mesh.Transport.{Transport, start_accept_loop}
use gossip_mesh.Transport.Dial.{returned, dial_step, callers_step, callers_run, callers_start}

-- Both callers find the ended connection; the second one replaces it before the first one deletes.
abbrev pub two_evictions : List ℕ
two_evictions = 0 ∷ 0 ∷ 1 ∷ 1 ∷ 1 ∷ 1 ∷ 1 ∷ 1 ∷ 0 ∷ []

-- If the table has an ended connection for an address, a schedule of two callers exists in which one of
-- them is handed a new connection that has not ended, while the other one takes it out of the table.
pub live_connection_evicted :
    (addr : String) (results : ℕ → Option ℕ) (t : Transport) (c d : ℕ)
    → IsMap t.app_conns
    → lookup addr t.app_conns ≡ some c
    → t.ended c ≡ true
    → results 1 ≡ some d
    → t.ended d ≡ false
    → let r = callers_run (λ i. addr) results (callers_start t) two_evictions in
      (r.pcs 1 ≡ returned (some d))
      × (lookup addr r.transport.app_conns ≡ none)
      × (r.transport.ended d ≡ false)
unfolding callers_run callers_step callers_start dial_step start_accept_loop
live_connection_evicted addr results t c d u there dead made alive =
    let t1 = delete addr t.app_conns in
    let gone : lookup addr t1 ≡ none =
      lookup-delete addr addr t.app_conns u ∙ rw ((eq_iff addr addr).1 refl) refl in
    let put_back : lookup addr (delete addr (insert addr d t1)) ≡ none =
      lookup-delete addr addr (insert addr d t1)
        (insert-IsMap addr d t1 (delete-IsMap addr t.app_conns u))
      ∙ rw ((eq_iff addr addr).1 refl) refl in
    ground (arith, there, dead, made, gone, put_back)
