-- ===== src/Bootstrap/ClusterTls/Trust.antt =====
-- What the nodes of a cluster get from SetupClusterTLS (bootstrap/tls.go).
use Prim.Native.String.{String}
use gossip_mesh.Base.{
  ℕ, suc, ◌≡◌, refl, ap, subst, ◌∙◌, Option, some, List, [], ◌∷◌, inl, inr, Option-cases,
}
use gossip_mesh.ObjectStore.{MemoryObjectStore, failed, not_found, put, get, if_none_match}
use gossip_mesh.Bootstrap.Memory.{memory_ops}
use gossip_mesh.Bootstrap.ClusterTls.{
  Ca, ended, TlsResult, returns, refuses, ca_cert_path, ca_key_path, nodes_run, nodes_start,
  create_ca, get_or_create_ca, TlsUtil, config_of,
}
use gossip_mesh.Bootstrap.ClusterTls.Points.{
  Holds, Paired, put_absent, stored-Holds, stored-Keeps, stored_other,
}
use gossip_mesh.Bootstrap.ClusterTls.Agreement.{Generates, nodes_run_agree}

-- What the code relies on in tlsutil: a node's certificate verifies under the CA whose key signed it, and a
-- configuration has the certificates that it was made of.
pub record IsTlsUtil {T : Type 0} (util : TlsUtil T) (Belongs : Ca → Type 0)
    (Verifies : List ℕ → List ℕ → Type 0) (root_of cert_of : T → List ℕ) : Type 0 where
  pub signed :
      (ca : Ca) (node_id : String) (cert key : List ℕ)
      → Belongs ca
      → util.node_cert ca node_id ≡ some (cert, key)
      → Verifies ca.0 cert
  pub configured :
      (cert key root : List ℕ) (config : T)
      → util.mutual_config cert key root ≡ some config
      → (root_of config ≡ root) × (cert_of config ≡ cert)

module _ (sprint_version : ℕ → String) (sort_strings : List String → List String) where
  there_returns :
      (s : MemoryObjectStore) (ca : Ca) (generate : ℕ → Option Ca) (n : ℕ)
      → Holds s ca_cert_path ca.0
      → Holds s ca_key_path ca.1
      → get_or_create_ca (memory_ops sprint_version sort_strings) generate (suc n) s
        ≡ (s, some (returns ca))
  unfolding get_or_create_ca
  there_returns s ca generate n (_, cert) (_, key) = rw (cert, key, get_or_create_ca) refl

  -- The first node's getOrCreateCA, on a store without a CA, returns the CA that it has generated,
  -- if GenerateCA succeeds; afterwards every call of every node returns this CA, whatever
  -- GenerateCA would give, and leaves the store as it is. No call needs a second round.
  pub get_or_create_ca_shared :
      (s : MemoryObjectStore) (ca : Ca) (generate : ℕ → Option Ca) (n : ℕ)
      → get s ca_cert_path ≡ failed not_found
      → get s ca_key_path ≡ failed not_found
      → generate n ≡ some ca
      → let ops = memory_ops sprint_version sort_strings in
        (s' : MemoryObjectStore) × (get_or_create_ca ops generate (suc n) s
          ≡ (s', some (returns ca)))
        × ((others : ℕ → Option Ca) (m : ℕ)
            → get_or_create_ca ops others (suc m) s' ≡ (s', some (returns ca)))
  unfolding get_or_create_ca create_ca
  get_or_create_ca_shared s ca generate n no_cert no_key made =
      elim (put_absent sprint_version s ca_cert_path ca.0) [
        | inr (_, (_, there), _) ↦ cc (there, no_cert)
        | inl (s1, i1, cert_put, _) ↦ elim (put_absent sprint_version s1 ca_key_path ca.1) [
          | inr (b, there, _) ↦ cc (
            (stored_other sprint_version s s1 ca_cert_path ca.0 i1 cert_put ca_key_path b refl
                there).1,
            no_key,
          )
          | inl (s2, i2, key_put, free) ↦
              let cert = stored-Holds sprint_version s s1 ca_cert_path ca.0 i1 cert_put in
              let keeps = stored-Keeps sprint_version s1 s2 ca_key_path ca.1 i2 key_put free in
              let key = stored-Holds sprint_version s1 s2 ca_key_path ca.1 i2 key_put in
              let left : (put sprint_version s ca_cert_path ca.0 (if_none_match ∷ [])).0 ≡ s1 =
                ap (λ x. x.0) cert_put in
              (
                s2,
                rw (no_cert, made, get_or_create_ca, create_ca, cert_put, left, key_put)
                    (ap
                        (λ x. (
                          (put sprint_version x ca_key_path ca.1 (if_none_match ∷ [])).0,
                          some (returns ca),
                        ))
                        left
                      ∙ ap (λ x. (x.0, some (returns ca))) key_put),
                λ others m. there_returns s2 ca others m (keeps ca_cert_path ca.0 cert) key,
              )
        ]
      ]

module _ {T : Type 0} (sprint_version : ℕ → String) (sort_strings : List String → List String)
    (util : TlsUtil T) (Belongs : Ca → Type 0) (Verifies : List ℕ → List ℕ → Type 0)
    (root_of cert_of : T → List ℕ) (lawful : IsTlsUtil util Belongs Verifies root_of cert_of) where
  config_of-parts :
      (ca : Ca) (id : String) (config : T)
      → Belongs ca
      → config_of util id (returns ca) ≡ returns config
      → (root_of config ≡ ca.0) × Verifies ca.0 (cert_of config)
  unfolding config_of
  config_of-parts ca id config good e = elim (Option-cases (util.node_cert ca id)) [
    | inl n ↦ cc (rw (n, config_of) at e)
    | inr ((cert, key), n) ↦ elim (Option-cases (util.mutual_config cert key ca.0)) [
      | inl m ↦ cc (rw (n, config_of, m) at e)
      | inr (config', m) ↦
          let same : returns config' ≡ returns config = rw (n, config_of, m) at e in
          let (root, mine) =
            lawful.configured cert key ca.0 config (m ∙ returns_some config' config same) in
          (root, rw mine (lawful.signed ca id cert key good n))
    ]
  ]
    where
      returns_some : (x y : T) → returns x ≡ returns y → some x ≡ some y
      returns_some x y q = cc q

  -- Where tlsutil signs and configures as it says, every CA that it generates is a certificate with its key, and
  -- a key in the store has its certificate there: however the nodes' calls of getOrCreateCA interleave,
  -- of two nodes that then get a configuration each accepts the other's certificate.
  pub cluster_trusts :
      (s : MemoryObjectStore) (es : List (ℕ × Option Ca)) (i j : ℕ) (r q : TlsResult Ca)
      (id other : String) (mine theirs : T)
      → Paired sprint_version Belongs s
      → Generates Belongs es
      → let ops = memory_ops sprint_version sort_strings in
        let after = nodes_run ops (nodes_start ops s) es in
        after.pcs i ≡ ended r
        → after.pcs j ≡ ended q
        → config_of util id r ≡ returns mine
        → config_of util other q ≡ returns theirs
        → Verifies (root_of mine) (cert_of theirs) × Verifies (root_of theirs) (cert_of mine)
  unfolding config_of
  cluster_trusts s es i j (refuses e) q id other mine theirs paired good ei ej ci cj = cc ci
  cluster_trusts s es i j (returns ca) (refuses e) id other mine theirs paired good ei ej ci cj =
      cc cj
  cluster_trusts s es i j (returns ca) (returns ca') id other mine theirs paired good ei ej ci cj =
      let (same, belongs, _, _) =
        nodes_run_agree sprint_version sort_strings Belongs s es i j ca ca' paired good ei ej in
      let (root, signed) = config_of-parts ca id mine belongs ci in
      let (root', signed') = config_of-parts ca' other theirs (subst Belongs same belongs) cj in
      (rw (root, same) signed', rw (root', ← same) signed)
