-- ===== src/Bootstrap/ClusterTls/Orphan.antt =====
-- A CA's certificate without its key, as a node leaves it in the store that dies between its two Puts
-- (bootstrap/tls.go), and the calls that no other interrupts.
use Prim.Native.String.{String}
use gossip_mesh.Base.{
  ℕ, zero, suc, ◌==◌, ◌≡◌, refl, ap, subst, ◌∙◌, Option, some, none, List, [], ◌∷◌, inl, inr,
  Bool-cases, Option-cases,
}
use gossip_mesh.ObjectStore.{
  MemoryObjectStore, failed, not_found, put, get, if_none_match, precondition_failed,
}
use gossip_mesh.Bootstrap.Memory.{memory_ops}
use gossip_mesh.Bootstrap.ClusterTls.{
  Ca, CaPc, asking, with_cert, making, generated, cert_stored, ended, TlsResult, refuses,
  generate_ca, ca_step, ca_cert_path, ca_key_path, Nodes, nodes_step, nodes_run, nodes_start,
  create_ca, get_or_create_ca,
}
use gossip_mesh.Bootstrap.ClusterTls.Points.{Holds, put_absent}

abbrev pub IsOrphaned : MemoryObjectStore → Type 0
IsOrphaned s =
    ((cert : List ℕ) × Holds s ca_cert_path cert) × (get s ca_key_path ≡ failed not_found)

-- Neither about to store the key nor ended, but by the error of GenerateCA.
abbrev Waits : CaPc → Type 0
Waits (cert_stored ca) = ⊥
Waits (ended r) = r ≡ refuses generate_ca
Waits pc = Unit

module _ (sprint_version : ℕ → String) (sort_strings : List String → List String)
    (s : MemoryObjectStore) (orphaned : IsOrphaned s) where
  put_refused :
      (cert : List ℕ)
      → put sprint_version s ca_cert_path cert (if_none_match ∷ [])
        ≡ (s, failed precondition_failed)
  put_refused cert = elim (put_absent sprint_version s ca_cert_path cert) [
    | inr (_, _, refused) ↦ refused
    | inl (_, _, _, absent) ↦ cc (orphaned.0.1.1, absent)
  ]

  ca_step-Waits :
      (fresh : Option Ca) (pc : CaPc)
      → Waits pc
      → let r = ca_step (memory_ops sprint_version sort_strings) fresh s pc in (r.0 ≡ s) × Waits r.1
  unfolding ca_step
  ca_step-Waits fresh asking w = rw (orphaned.0.1.1, ca_step) (refl, tt)
  ca_step-Waits fresh (with_cert cert) w = rw (orphaned.1, ca_step) (refl, tt)
  ca_step-Waits fresh making w = elim (Option-cases fresh) [
    | inl e ↦ rw (e, ca_step) (refl, refl)
    | inr (ca, e) ↦ rw (e, ca_step) (refl, tt)
  ]
  ca_step-Waits fresh (generated ca) w =
      let e = put_refused ca.0 in rw (e, ca_step) (ap (λ x. x.0) e, tt)
  ca_step-Waits fresh (cert_stored ca) w = elim w [ ]
  ca_step-Waits fresh (ended r) w = (refl, w)

  nodes_run-Waits :
      (r : Nodes MemoryObjectStore) (es : List (ℕ × Option Ca))
      → r.store ≡ s
      → ((i : ℕ) → Waits (r.pcs i))
      → let r' = nodes_run (memory_ops sprint_version sort_strings) r es in
        (r'.store ≡ s) × ((i : ℕ) → Waits (r'.pcs i))
  unfolding nodes_run nodes_step
  nodes_run-Waits r [] same w = (same, w)
  nodes_run-Waits r ((i, fresh) ∷ es) same w =
      let moved = ca_step-Waits fresh (r.pcs i) (w i) in
      nodes_run-Waits (nodes_step (memory_ops sprint_version sort_strings) r (i, fresh)) es
        (ap (λ x. (ca_step (memory_ops sprint_version sort_strings) fresh x (r.pcs i)).0) same
          ∙ moved.0)
        (λ j. elim (Bool-cases (j == i)) [ inl e ↦ rw (e, same) moved.1 | inr e ↦ rw e (w j) ])

  -- Where the store has the CA's certificate and not its key, it stays so: however the nodes' calls of
  -- getOrCreateCA interleave, the store does not change, and no call ends but by an error of GenerateCA.
  pub nodes_run_orphaned :
      (es : List (ℕ × Option Ca)) (i : ℕ) (r : TlsResult Ca)
      → let ops = memory_ops sprint_version sort_strings in
        let after = nodes_run ops (nodes_start ops s) es in
        (after.store ≡ s) × (after.pcs i ≡ ended r → r ≡ refuses generate_ca)
  nodes_run_orphaned es i r =
      let ops = memory_ops sprint_version sort_strings in
      let (same, waits) = nodes_run-Waits (nodes_start ops s) es refl (λ j. tt) in
      (same, λ e. subst Waits e (waits i))

  -- Where the store has the CA's certificate and not its key, and GenerateCA succeeds, getOrCreateCA calls
  -- itself for ever: no fuel is enough.
  pub get_or_create_ca_orphaned :
      (generate : ℕ → Option Ca) (fuel : ℕ)
      → ((n : ℕ) → (ca : Ca) × (generate n ≡ some ca))
      → get_or_create_ca (memory_ops sprint_version sort_strings) generate fuel s ≡ (s, none)
  unfolding get_or_create_ca create_ca
  get_or_create_ca_orphaned generate zero made = refl
  get_or_create_ca_orphaned generate (suc n) made =
      let (ca, e) = made n in
      let refused = put_refused ca.0 in
      rw (orphaned.0.1.1, orphaned.1, e, refused, get_or_create_ca, create_ca)
        (ap (λ x. get_or_create_ca (memory_ops sprint_version sort_strings) generate n x.0) refused
          ∙ get_or_create_ca_orphaned generate n made)
