-- ===== src/Transport/Dial/Unique.antt =====
-- What callers of getOrDial that race are given (transport/transport.go).
use Prim.Native.String.{String}
use gossip_mesh.Base.{
  ℕ, ◌==◌, ◌≡◌, sym, subst, false, Option, some, List, [], ◌∷◌, inl, inr, Bool-cases, ==_iff, ==_ne,
}
use gossip_mesh.Base.Table.{string_key, lookup}
use gossip_mesh.Transport.{Transport}
use gossip_mesh.Transport.Dial.{
  Pc, returned, dial_step, Callers, callers_step, callers_run, callers_start,
}
use gossip_mesh.Transport.Dial.Points.{
  At, IsLive, Fresh, Point, dial_step-Change, IsLive-keeps, Point-keeps,
}

record Inv (addrs : ℕ → String) (results : ℕ → Option ℕ) (r : Callers) : Type 0 where
  live : IsLive r.transport
  points : (i : ℕ) → Point (addrs i) (results i) r.transport (r.pcs i)

module _ (addrs : ℕ → String) (results : ℕ → Option ℕ)
    (distinct : (i j c : ℕ) → results i ≡ some c → results j ≡ some c → i ≡ j) where
  abbrev moved : Callers → ℕ → Transport × Pc
  moved r i = dial_step (addrs i) (results i) r.transport (r.pcs i)

  step-points :
      (r : Callers) (i j : ℕ)
      → Inv addrs results r
      → Point (addrs j) (results j) (moved r i).0 ((callers_step addrs results r i).pcs j)
  unfolding callers_step
  step-points r i j v =
      let (change, mine) =
        dial_step-Change (addrs i) (results i) r.transport (r.pcs i) v.live (v.points i) in
      elim (Bool-cases (j == i)) [
        | inl e ↦ rw e (
            subst (λ k. Point (addrs k) (results k) (moved r i).0 (moved r i).1)
              (sym ((==_iff j i).0 e)) mine)
        | inr e ↦ rw e (
            Point-keeps (addrs i) (results i) r.transport (moved r i).0 (addrs j) (results j)
              (r.pcs j) change (λ c h g. ==_ne j i e (distinct j i c h g)) (v.points j))
      ]

  callers_step-Inv :
      (r : Callers) (i : ℕ)
      → Inv addrs results r
      → Inv addrs results (callers_step addrs results r i)
  unfolding callers_step
  callers_step-Inv r i v = record {
    live =
        IsLive-keeps (addrs i) (results i) r.transport (moved r i).0
          (dial_step-Change (addrs i) (results i) r.transport (r.pcs i) v.live (v.points i)).0
          v.live;
    points = λ j. step-points r i j v;
  }

  callers_run-Inv :
      (r : Callers) (is : List ℕ)
      → Inv addrs results r
      → Inv addrs results (callers_run addrs results r is)
  unfolding callers_run
  callers_run-Inv r [] v = v
  callers_run-Inv r (i ∷ is) v =
      callers_run-Inv (callers_step addrs results r i) is (callers_step-Inv r i v)

  -- While no connection ends by itself, and every dial gives a connection of its own that the table does
  -- not have: however the callers interleave, two calls for one address that return connections return
  -- the same one, it is the table's connection for the address, and it has not ended.
  pub callers_run_unique :
      (t : Transport) (is : List ℕ) (i j c d : ℕ)
      → IsLive t
      → ((k : ℕ) → Fresh t (results k))
      → addrs i ≡ addrs j
      → (callers_run addrs results (callers_start t) is).pcs i ≡ returned (some c)
      → (callers_run addrs results (callers_start t) is).pcs j ≡ returned (some d)
      → let t' = (callers_run addrs results (callers_start t) is).transport in
        (c ≡ d) × (lookup (addrs i) t'.app_conns ≡ some c) × (t'.ended c ≡ false)
  unfolding callers_start
  callers_run_unique t is i j c d live fresh same ci dj =
      let r = callers_run addrs results (callers_start t) is in
      let v : Inv addrs results r =
        callers_run-Inv (callers_start t) is (record { live = live; points = fresh }) in
      let at_i : At r.transport (addrs i) c =
        subst (Point (addrs i) (results i) r.transport) ci (v.points i) in
      let at_j : At r.transport (addrs j) d =
        subst (Point (addrs j) (results j) r.transport) dj (v.points j) in
      (cc (at_i, at_j, same), at_i, v.live (addrs i) c at_i)
