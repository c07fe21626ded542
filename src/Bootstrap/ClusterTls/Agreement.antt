-- ===== src/Bootstrap/ClusterTls/Agreement.antt =====
-- Nodes that set up their TLS at once (bootstrap/tls.go).
use Prim.Native.String.{String}
use gossip_mesh.Base.{ℕ, ◌==◌, ◌≡◌, subst, Option, some, List, [], ◌∷◌, inl, inr, All, Bool-cases}
use gossip_mesh.ObjectStore.{MemoryObjectStore}
use gossip_mesh.Bootstrap.Memory.{memory_ops}
use gossip_mesh.Bootstrap.ClusterTls.{
  Ca, ended, returns, ca_cert_path, ca_key_path, Nodes, nodes_step, nodes_run, nodes_start,
}
use gossip_mesh.Bootstrap.ClusterTls.Points.{
  Holds, Holds-same, Paired, Point, Point-Keeps, ca_step-Moved,
}

-- What GenerateCA gives in a run has this property.
abbrev pub Generates : (Ca → Type 0) → List (ℕ × Option Ca) → Type 0
Generates P es = All (λ (e : ℕ × Option Ca). (ca : Ca) → e.1 ≡ some ca → P ca) es

module _ (sprint_version : ℕ → String) (sort_strings : List String → List String)
    (Belongs : Ca → Type 0) where
  record Inv (r : Nodes MemoryObjectStore) : Type 0 where
    paired : Paired sprint_version Belongs r.store
    points : (i : ℕ) → Point sprint_version Belongs r.store (r.pcs i)

  nodes_step-Inv :
      (r : Nodes MemoryObjectStore) (i : ℕ) (fresh : Option Ca)
      → ((ca : Ca) → fresh ≡ some ca → Belongs ca)
      → Inv r
      → Inv (nodes_step (memory_ops sprint_version sort_strings) r (i, fresh))
  unfolding nodes_step
  nodes_step-Inv r i fresh good v =
      let (keeps, paired, mine) =
        ca_step-Moved sprint_version Belongs sort_strings fresh r.store (r.pcs i) good v.paired
          (v.points i) in
      record {
        paired = paired;
        points = λ j. elim (Bool-cases (j == i)) [
          | inl e ↦ rw e mine
          | inr e ↦ rw e (Point-Keeps sprint_version Belongs r.store _ (r.pcs j) keeps (v.points j))
        ];
      }

  nodes_run-Inv :
      (r : Nodes MemoryObjectStore) (es : List (ℕ × Option Ca))
      → Generates Belongs es
      → Inv r
      → Inv (nodes_run (memory_ops sprint_version sort_strings) r es)
  unfolding nodes_run
  nodes_run-Inv r [] good v = v
  nodes_run-Inv r ((i, fresh) ∷ es) good v =
      nodes_run-Inv (nodes_step (memory_ops sprint_version sort_strings) r (i, fresh)) es good.1
        (nodes_step-Inv r i fresh good.0 v)

  -- If a key in the store has its certificate there, and GenerateCA gives certificates with their
  -- keys: however the nodes' calls of getOrCreateCA interleave, all that return a CA return the
  -- same one, a certificate with its key, and both are in the store.
  pub nodes_run_agree :
      (s : MemoryObjectStore) (es : List (ℕ × Option Ca)) (i j : ℕ) (ca other : Ca)
      → Paired sprint_version Belongs s
      → Generates Belongs es
      → let r =
          nodes_run
            (memory_ops sprint_version sort_strings)
            (nodes_start (memory_ops sprint_version sort_strings) s)
            es in
        r.pcs i ≡ ended (returns ca)
        → r.pcs j ≡ ended (returns other)
        → (ca ≡ other)
          × Belongs ca
          × Holds r.store ca_cert_path ca.0
          × Holds r.store ca_key_path ca.1
  nodes_run_agree s es i j ca other paired good ei ej =
      let r =
        nodes_run (memory_ops sprint_version sort_strings)
          (nodes_start (memory_ops sprint_version sort_strings) s) es in
      let v : Inv r =
        nodes_run-Inv (nodes_start (memory_ops sprint_version sort_strings) s) es good
          (record { paired = paired; points = λ k. tt }) in
      let (cert, key) : Holds r.store ca_cert_path ca.0 × Holds r.store ca_key_path ca.1 =
        subst (Point sprint_version Belongs r.store) ei (v.points i) in
      let (cert', key') : Holds r.store ca_cert_path other.0 × Holds r.store ca_key_path other.1 =
        subst (Point sprint_version Belongs r.store) ej (v.points j) in
      let (c, found, good') = v.paired ca.1 key in
      (
        ca_eq ca other (Holds-same r.store ca_cert_path ca.0 other.0 cert cert')
            (Holds-same r.store ca_key_path ca.1 other.1 key key'),
        subst (λ x. Belongs (x, ca.1)) (Holds-same r.store ca_cert_path c ca.0 found cert) good',
        cert,
        key,
      )
    where
      ca_eq : (a b : Ca) → a.0 ≡ b.0 → a.1 ≡ b.1 → a ≡ b
      ca_eq a b p q = cc (p, q)
