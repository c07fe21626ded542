-- ===== src/Bootstrap/ClusterTls.antt =====
-- bootstrap/tls.go: the CA that the nodes of a cluster share in the object store, and a node's TLS
-- configuration. Certificates and keys are lists of bytes; what tlsutil generates is a parameter.
mod Points
pub mod Agreement
pub mod Orphan
pub mod Trust
mod Examples
use Prim.Native.String.{String}
use gossip_mesh.Base.{ℕ, zero, suc, ◌==◌, Bool, Option, none, some, List, [], ◌∷◌, if◌then◌else◌}
use gossip_mesh.ObjectStore.{
  StoreError, StoreResult, done, failed, not_found, precondition_failed, if_none_match,
}
use gossip_mesh.Bootstrap.{ObjectStoreOps}

abbrev pub ca_key_path : String
ca_key_path = "ca/key.pem"

abbrev pub ca_cert_path : String
ca_cert_path = "ca/cert.pem"

-- The CA's certificate and its key.
abbrev pub Ca : Type 0
Ca = List ℕ × List ℕ

pub data TlsError : Type 0 where
  no_store generate_ca generate_cert create_config : TlsError
  get_ca store_ca_cert store_ca_key : StoreError → TlsError

pub data TlsResult {ℓ} (A : Type ℓ) : Type ℓ where
  returns : A → TlsResult A
  refuses : TlsError → TlsResult A

-- Where a call is: before its first Get, with the certificate, before GenerateCA, before the Put of the
-- certificate, before that of the key, or returned.
pub data CaPc : Type 0 where
  asking : CaPc
  with_cert : List ℕ → CaPc
  making : CaPc
  generated cert_stored : Ca → CaPc
  ended : TlsResult Ca → CaPc

pub record Nodes (S : Type 0) : Type 0 where
  pub store : S
  pub pcs : ℕ → CaPc

module _ {S : Type 0} (ops : ObjectStoreOps S) where
  -- getOrCreateCA from GenerateCA on. `made` is what GenerateCA gives, and `again` is the call of
  -- getOrCreateCA for a node that was not the first.
  unfoldable pub create_ca :
      (S → S × Option (TlsResult Ca)) → Option Ca → S → S × Option (TlsResult Ca)
  create_ca again made s = elim made [
    | none ↦ (s, some (refuses generate_ca))
    | some ca ↦
        let (s1, cert_put) = ops.put_object s ca_cert_path ca.0 (if_none_match ∷ []) in
        let (s2, key_put) = ops.put_object s1 ca_key_path ca.1 (if_none_match ∷ []) in
        elim cert_put [
          | failed precondition_failed ↦ again s1
          | failed e ↦ (s1, some (refuses (store_ca_cert e)))
          | done _ ↦ elim key_put [
            | failed precondition_failed ↦ again s2
            | failed e ↦ (s2, some (refuses (store_ca_key e)))
            | done _ ↦ (s2, some (returns ca))
          ]
        ]
  ]

  -- getOrCreateCA with fuel; no result means that the fuel ran out. `generate n` is what GenerateCA gives
  -- with n rounds left.
  unfoldable pub get_or_create_ca : (ℕ → Option Ca) → ℕ → S → S × Option (TlsResult Ca)
  get_or_create_ca generate zero s = (s, none)
  get_or_create_ca generate (suc n) s =
      let made : S × Option (TlsResult Ca) =
        create_ca (λ s'. get_or_create_ca generate n s') (generate n) s in
      elim (ops.get_object s ca_cert_path) [
        | failed not_found ↦ made
        | failed e ↦ (s, some (refuses (get_ca e)))
        | done (cert, _) ↦ elim (ops.get_object s ca_key_path) [
          | failed not_found ↦ made
          | failed e ↦ (s, some (refuses (get_ca e)))
          | done (key, _) ↦ (s, some (returns (cert, key)))
        ]
      ]

  -- The next call of the store or of GenerateCA, in which GenerateCA gives `fresh`.
  unfoldable pub ca_step : Option Ca → S → CaPc → S × CaPc
  ca_step fresh s asking = elim (ops.get_object s ca_cert_path) [
    | failed not_found ↦ (s, making)
    | failed e ↦ (s, ended (refuses (get_ca e)))
    | done (cert, _) ↦ (s, with_cert cert)
  ]
  ca_step fresh s (with_cert cert) = elim (ops.get_object s ca_key_path) [
    | failed not_found ↦ (s, making)
    | failed e ↦ (s, ended (refuses (get_ca e)))
    | done (key, _) ↦ (s, ended (returns (cert, key)))
  ]
  ca_step fresh s making = elim fresh [
    | none ↦ (s, ended (refuses generate_ca))
    | some ca ↦ (s, generated ca)
  ]
  ca_step fresh s (generated ca) =
      let (s', result) = ops.put_object s ca_cert_path ca.0 (if_none_match ∷ []) in
      elim result [
        | failed precondition_failed ↦ (s', asking)
        | failed e ↦ (s', ended (refuses (store_ca_cert e)))
        | done _ ↦ (s', cert_stored ca)
      ]
  ca_step fresh s (cert_stored ca) =
      let (s', result) = ops.put_object s ca_key_path ca.1 (if_none_match ∷ []) in
      elim result [
        | failed precondition_failed ↦ (s', asking)
        | failed e ↦ (s', ended (refuses (store_ca_key e)))
        | done _ ↦ (s', ended (returns ca))
      ]
  ca_step fresh s (ended r) = (s, ended r)

  -- A step of one node, with what GenerateCA gives if this is its call.
  unfoldable pub nodes_step : Nodes S → ℕ × Option Ca → Nodes S
  nodes_step r (i, fresh) =
      let (s, pc) = ca_step fresh r.store (r.pcs i) in
      record { store = s; pcs = λ j. if j == i then pc else r.pcs j }

  unfoldable pub nodes_run : Nodes S → List (ℕ × Option Ca) → Nodes S
  nodes_run r [] = r
  nodes_run r (e ∷ es) = nodes_run (nodes_step r e) es

  abbrev pub nodes_start : S → Nodes S
  nodes_start s = record { store = s; pcs = λ i. asking }

-- GenerateNodeCertWithIPs for one node, with its certificate and its key, and MutualTLSConfig.
pub record TlsUtil (T : Type 0) : Type 0 where
  pub node_cert : Ca → String → Option (List ℕ × List ℕ)
  pub mutual_config : List ℕ → List ℕ → List ℕ → Option T

-- SetupClusterTLS behind getOrCreateCA.
unfoldable pub config_of : {T : Type 0} → TlsUtil T → String → TlsResult Ca → TlsResult T
config_of util node_id (refuses e) = refuses e
config_of util node_id (returns ca) = elim (util.node_cert ca node_id) [
  | none ↦ refuses generate_cert
  | some (cert, key) ↦ elim (util.mutual_config cert key ca.0) [
    | none ↦ refuses create_config
    | some config ↦ returns config
  ]
]

-- SetupClusterTLS; a store that is nil is none.
unfoldable pub setup_cluster_tls :
    {S T : Type 0}
    → ObjectStoreOps S
    → TlsUtil T
    → (ℕ → Option Ca)
    → ℕ
    → Option S
    → String
    → Option S × Option (TlsResult T)
unfolding config_of
setup_cluster_tls ops util generate fuel none node_id = (none, some (refuses no_store))
setup_cluster_tls ops util generate fuel (some s) node_id =
    let (s', r) = get_or_create_ca ops generate fuel s in
    (some s', elim r [ none ↦ none | some ca ↦ some (config_of util node_id ca) ])
