-- ===== src/Bootstrap/Discovery.antt =====
-- What DiscoverPeers finds (bootstrap/registry.go).
use Prim.Native.String.{String}
use gossip_mesh.Base.{
  ℕ, ◌≡◌, ◌⊎◌, refl, subst, Option, some, List, [], ◌∷◌, Any, inl, inr, Option-cases,
}
use gossip_mesh.ObjectStore.{StoreResult, done, failed, not_found, precondition_failed, ObjectInfo}
use gossip_mesh.Bootstrap.{
  NodeRegistration, ObjectStoreOps, RegistryError, RegistryResult, accepted, rejected,
  discover_loop,
}

pub StoreResult-cases :
    (r : StoreResult (List ℕ × ObjectInfo))
    → ((r ≡ failed not_found) ⊎ (r ≡ failed precondition_failed))
      ⊎ ((x : List ℕ × ObjectInfo) × (r ≡ done x))
StoreResult-cases (failed not_found) = inl (inl refl)
StoreResult-cases (failed precondition_failed) = inl (inr refl)
StoreResult-cases (done x) = inr (x, refl)

RegistryResult-cases :
    (r : RegistryResult (List NodeRegistration))
    → ((rs : List NodeRegistration) × (r ≡ accepted rs)) ⊎ ((e : RegistryError) × (r ≡ rejected e))
RegistryResult-cases (accepted rs) = inl (rs, refl)
RegistryResult-cases (rejected e) = inr (e, refl)

accepted_same : (xs ys : List NodeRegistration) → accepted xs ≡ accepted ys → xs ≡ ys
accepted_same xs ys e = cc

found_first :
    (x : NodeRegistration) (xs : List NodeRegistration) (r : NodeRegistration)
    → x ≡ r
    → Any (λ y. y ≡ r) (x ∷ xs)
found_first x xs r e = inl e

found_later :
    (x : NodeRegistration) (xs : List NodeRegistration) (r : NodeRegistration)
    → Any (λ y. y ≡ r) xs
    → Any (λ y. y ≡ r) (x ∷ xs)
found_later x xs r a = inr a

module _ {S : Type 0} (ops : ObjectStoreOps S) (unmarshal : List ℕ → Option NodeRegistration) where
  -- The object under a key is a registration.
  abbrev pub Registered : S → NodeRegistration → String → Type 0
  Registered s r key =
      (bytes : List ℕ) × (info : ObjectInfo) × (ops.get_object s key ≡ done (bytes, info))
      × (unmarshal bytes ≡ some r)

  -- Where the discovery over the listed keys succeeds, the registration under any of these keys is among
  -- its results.
  pub discover_loop_finds :
      (s : S) (ks : List String) (rs : List NodeRegistration) (r : NodeRegistration)
      → discover_loop ops unmarshal s ks ≡ accepted rs
      → Any (Registered s r) ks
      → Any (λ x. x ≡ r) rs
  unfolding discover_loop
  discover_loop_finds s [] rs r e there = elim there [ ]
  discover_loop_finds s (k ∷ ks) rs r e there = elim (StoreResult-cases (ops.get_object s k)) [
    | inl (inl gone) ↦ elim there [
      | inl (bytes, info, got, _) ↦ cc (gone, got)
      | inr rest ↦ discover_loop_finds s ks rs r (rw (gone, discover_loop) at e) rest
    ]
    | inl (inr refused) ↦ cc (rw (refused, discover_loop) at e)
    | inr ((bytes, info), got) ↦ elim (Option-cases (unmarshal bytes)) [
      | inl malformed ↦ elim there [
        | inl (bytes', info', got', well) ↦ cc (got, got', well, malformed)
        | inr rest ↦ discover_loop_finds s ks rs r (rw (got, discover_loop, malformed) at e) rest
      ]
      | inr (x, well) ↦ elim (RegistryResult-cases (discover_loop ops unmarshal s ks)) [
        | inr (why, broken) ↦ cc (rw (got, discover_loop, well, broken) at e)
        | inl (more, later) ↦
            let whole : accepted (x ∷ more) ≡ accepted rs =
              rw (got, discover_loop, well, later) at e in
            elim there [
              | inl (bytes', info', got', well') ↦
                  subst (Any (λ y. y ≡ r)) (accepted_same (x ∷ more) rs whole)
                    (found_first x more r (cc (got, got', well, well')))
              | inr rest ↦
                  subst (Any (λ y. y ≡ r)) (accepted_same (x ∷ more) rs whole)
                    (found_later x more r (discover_loop_finds s ks more r later rest))
            ]
      ]
    ]
  ]
