-- ===== src/Bootstrap/ClusterTls/Points.antt =====
-- What a node knows at each point of getOrCreateCA over the store in memory (bootstrap/tls.go).
use Prim.Native.String.{String}
use text.Mathlib.Text.{◌==◌ as str_eq}
use text.Mathlib.TextEquality.{eq_iff}
use gossip_mesh.Base.{
  ℕ, length, ◌≡◌, ◌⊎◌, refl, sym, ap, subst, ◌∙◌, false, Option, some, List, [], ◌∷◌, inl, inr,
  Option-cases, Bool-cases, if◌then◌else◌,
}
use gossip_mesh.Base.Table.{string_key, lookup}
use gossip_mesh.ObjectStore.{
  MemoryObjectStore, ObjectInfo, done, failed, not_found, precondition_failed, if_none_match, put,
  get, store_object,
}
use gossip_mesh.ObjectStore.Conditional.{get-put}
use gossip_mesh.Bootstrap.Discovery.{StoreResult-cases}
use gossip_mesh.Bootstrap.Memory.{memory_ops}
use gossip_mesh.Bootstrap.ClusterTls.{
  Ca, CaPc, asking, with_cert, making, generated, cert_stored, ended, returns, refuses, get_ca,
  generate_ca, ca_step, ca_cert_path, ca_key_path,
}

-- The store has these bytes under the key.
abbrev pub Holds : MemoryObjectStore → String → List ℕ → Type 0
Holds s k b = (info : ObjectInfo) × (get s k ≡ done (b, info))

pub Holds-same :
    (s : MemoryObjectStore) (k : String) (b c : List ℕ) → Holds s k b → Holds s k c → b ≡ c
Holds-same s k b c (i, p) (j, q) = cc (p, q)

-- Nothing of the first store is lost or changed in the second one.
abbrev pub Keeps : MemoryObjectStore → MemoryObjectStore → Type 0
Keeps s s' = (k : String) (b : List ℕ) → Holds s k b → Holds s' k b

module _ (sprint_version : ℕ → String) where
  -- A put with IfNoneMatch stores under a key that has no object, or changes nothing.
  pub put_absent :
      (s : MemoryObjectStore) (key : String) (bytes : List ℕ)
      → ((s' : MemoryObjectStore) × (info : ObjectInfo) × (put sprint_version s key bytes
              (if_none_match ∷ [])
            ≡ (s', done info))
          × (get s key ≡ failed not_found))
        ⊎ ((b : List ℕ) × Holds s key b
            × (put sprint_version s key bytes (if_none_match ∷ [])
                ≡ (s, failed precondition_failed)))
  unfolding put get store_object
  put_absent s key bytes = elim (Option-cases (lookup key s.objects)) [
    | inl e ↦ inl (
      (store_object sprint_version s key bytes).0,
      record { size = length bytes; etag = sprint_version s.version },
      rw (e, put) refl,
      rw (e, get) refl,
    )
    | inr (x, e) ↦ inr (
      x.data_bytes,
      (record { size = length x.data_bytes; etag = x.etag }, rw (e, get) refl),
      rw (e, put) refl,
    )
  ]

  module _ (s s' : MemoryObjectStore) (key : String) (bytes : List ℕ) (info : ObjectInfo)
      (stored : put sprint_version s key bytes (if_none_match ∷ []) ≡ (s', done info)) where
    read_back : (k : String) → get s' k ≡ (if str_eq key k then done (bytes, info) else get s k)
    read_back k = get-put sprint_version s key k bytes (if_none_match ∷ []) s' info stored

    pub stored-Holds : Holds s' key bytes
    stored-Holds = (info, read_back key ∙ rw ((eq_iff key key).1 refl) refl)

    pub stored-Keeps : get s key ≡ failed not_found → Keeps s s'
    stored-Keeps absent k b (i, there) = elim (Bool-cases (str_eq key k)) [
      | inl same ↦ cc (absent, there, (eq_iff key k).0 same)
      | inr other ↦ (i, read_back k ∙ rw other there)
    ]

    -- Another key has what it had before.
    pub stored_other : (k : String) (b : List ℕ) → str_eq key k ≡ false → Holds s' k b → Holds s k b
    stored_other k b other (i, there) = (i, rw (read_back k, other) at there)

  module _ (Belongs : Ca → Type 0) where
    -- A key in the store has its certificate there.
    abbrev pub Paired : MemoryObjectStore → Type 0
    Paired s =
        (key : List ℕ)
        → Holds s ca_key_path key
        → (cert : List ℕ) × Holds s ca_cert_path cert × Belongs (cert, key)

    abbrev pub Point : MemoryObjectStore → CaPc → Type 0
    Point s asking = Unit
    Point s (with_cert cert) = Holds s ca_cert_path cert
    Point s making = Unit
    Point s (generated ca) = Belongs ca
    Point s (cert_stored ca) = Holds s ca_cert_path ca.0 × Belongs ca
    Point s (ended (refuses e)) = Unit
    Point s (ended (returns ca)) = Holds s ca_cert_path ca.0 × Holds s ca_key_path ca.1

    pub Point-Keeps : (s s' : MemoryObjectStore) (pc : CaPc) → Keeps s s' → Point s pc → Point s' pc
    Point-Keeps s s' asking k p = tt
    Point-Keeps s s' (with_cert cert) k p = k ca_cert_path cert p
    Point-Keeps s s' making k p = tt
    Point-Keeps s s' (generated ca) k p = p
    Point-Keeps s s' (cert_stored ca) k p = (k ca_cert_path ca.0 p.0, p.1)
    Point-Keeps s s' (ended (refuses e)) k p = tt
    Point-Keeps s s' (ended (returns ca)) k p = (k ca_cert_path ca.0 p.0, k ca_key_path ca.1 p.1)

    abbrev pub Moved : MemoryObjectStore → MemoryObjectStore × CaPc → Type 0
    Moved s r = Keeps s r.0 × Paired r.0 × Point r.0 r.1

    stays : (s : MemoryObjectStore) (pc : CaPc) → Paired s → Point s pc → Moved s (s, pc)
    stays s pc v p = (λ k b h. h, v, p)

    module _ (sort_strings : List String → List String) where
      abbrev step : Option Ca → MemoryObjectStore → CaPc → MemoryObjectStore × CaPc
      step = ca_step (memory_ops sprint_version sort_strings)

      cert_step :
          (fresh : Option Ca) (s : MemoryObjectStore) (ca : Ca)
          → Paired s
          → Belongs ca
          → Moved s (step fresh s (generated ca))
      unfolding ca_step
      cert_step fresh s ca v good = elim (put_absent s ca_cert_path ca.0) [
        | inr (_, _, refused) ↦
            let moved : step fresh s (generated ca) ≡ (s, asking) =
              rw (refused, ca_step) (ap (λ x. (x.0, asking)) refused) in
            subst (Moved s) (sym moved) (stays s asking v tt)
        | inl (s', info, stored, absent) ↦
            let moved : step fresh s (generated ca) ≡ (s', cert_stored ca) =
              rw (stored, ca_step) (ap (λ x. (x.0, cert_stored ca)) stored) in
            subst (Moved s) (sym moved) (
              stored-Keeps s s' ca_cert_path ca.0 info stored absent,
              λ key there.
                  let (cert, (i, found), _) =
                    v key (
                      stored_other s s' ca_cert_path ca.0 info stored ca_key_path key refl there) in
                  cc (found, absent),
              (stored-Holds s s' ca_cert_path ca.0 info stored, good),
            )
      ]

      key_step :
          (fresh : Option Ca) (s : MemoryObjectStore) (ca : Ca)
          → Paired s
          → Holds s ca_cert_path ca.0
          → Belongs ca
          → Moved s (step fresh s (cert_stored ca))
      unfolding ca_step
      key_step fresh s ca v cert good = elim (put_absent s ca_key_path ca.1) [
        | inr (_, _, refused) ↦
            let moved : step fresh s (cert_stored ca) ≡ (s, asking) =
              rw (refused, ca_step) (ap (λ x. (x.0, asking)) refused) in
            subst (Moved s) (sym moved) (stays s asking v tt)
        | inl (s', info, stored, absent) ↦
            let keeps = stored-Keeps s s' ca_key_path ca.1 info stored absent in
            let mine = stored-Holds s s' ca_key_path ca.1 info stored in
            let moved : step fresh s (cert_stored ca) ≡ (s', ended (returns ca)) =
              rw (stored, ca_step) (ap (λ x. (x.0, ended (returns ca))) stored) in
            subst (Moved s) (sym moved) (
              keeps,
              λ key there. (
                ca.0,
                keeps ca_cert_path ca.0 cert,
                subst (λ k. Belongs (ca.0, k)) (Holds-same s' ca_key_path ca.1 key mine there) good,
              ),
              (keeps ca_cert_path ca.0 cert, mine),
            )
      ]

      -- A step loses nothing in the store, and what is known at the point after it is true.
      pub ca_step-Moved :
          (fresh : Option Ca) (s : MemoryObjectStore) (pc : CaPc)
          → ((ca : Ca) → fresh ≡ some ca → Belongs ca)
          → Paired s
          → Point s pc
          → Moved s (step fresh s pc)
      unfolding ca_step
      ca_step-Moved fresh s asking good v p = elim (StoreResult-cases (get s ca_cert_path)) [
        | inl (inl e) ↦ rw (e, ca_step) (stays s making v tt)
        | inl (inr e) ↦
            rw (e, ca_step) (stays s (ended (refuses (get_ca precondition_failed))) v tt)
        | inr ((cert, info), e) ↦ rw (e, ca_step) (stays s (with_cert cert) v (info, e))
      ]
      ca_step-Moved fresh s (with_cert cert) good v p =
          elim (StoreResult-cases (get s ca_key_path)) [
            | inl (inl e) ↦ rw (e, ca_step) (stays s making v tt)
            | inl (inr e) ↦
                rw (e, ca_step) (stays s (ended (refuses (get_ca precondition_failed))) v tt)
            | inr ((key, info), e) ↦
                rw (e, ca_step) (stays s (ended (returns (cert, key))) v (p, (info, e)))
          ]
      ca_step-Moved fresh s making good v p = elim (Option-cases fresh) [
        | inl e ↦ rw (e, ca_step) (stays s (ended (refuses generate_ca)) v tt)
        | inr (ca, e) ↦ rw (e, ca_step) (stays s (generated ca) v (good ca e))
      ]
      ca_step-Moved fresh s (generated ca) good v p = cert_step fresh s ca v p
      ca_step-Moved fresh s (cert_stored ca) good v p = key_step fresh s ca v p.0 p.1
      ca_step-Moved fresh s (ended r) good v p = stays s (ended r) v p
