-- ===== src/Base/Table.antt =====
-- Go maps as association lists with at most one entry for each key. The test of equality of keys is
-- an instance.
use Prim.Native.String.{String}
use text.Mathlib.Text.{◌==◌ as str_eq}
use text.Mathlib.TextEquality.{eq_iff}
use Prim.Native.Nat.{ℕ, suc, ◌+◌, ◌≤◌}
use mathlib.Core.Path.{◌≡◌, refl, sym, ◌∙◌}
use mathlib.Core.Logic.{◌↔◌, ◌≢◌, inl, inr}
use mathlib.Core.Bool.{Bool, true, false}
use mathlib.Core.Option.{Option, none, some}
use mathlib.Core.List.{List, [], ◌∷◌}
use native.Mathlib.Omega.{arith}
use gossip_mesh.Base.Tests.{◌==◌, ==_iff, if◌then◌else◌, Bool-cases}
use gossip_mesh.Base.Lists.{length, All}

pub record Key {ℓ} (K : Type ℓ) : Type ℓ where
  pub same : K → K → Bool
  pub same_iff : (a b : K) → (same a b ≡ true) ↔ (a ≡ b)

instance abbrev pub string_key : Key String
string_key = record { same = str_eq; same_iff = eq_iff }

instance abbrev pub nat_key : Key ℕ
nat_key = record { same = ◌==◌; same_iff = ==_iff }

module _ {ℓ κ} {K : Type ℓ} {V : Type κ} ⦃k : Key K⦄ where
  unfoldable pub lookup : K → List (K × V) → Option V
  lookup a [] = none
  lookup a ((b, v) ∷ m) = if k.same b a then some v else lookup a m

  unfoldable pub delete : K → List (K × V) → List (K × V)
  delete a [] = []
  delete a ((b, v) ∷ m) = if k.same b a then m else (b, v) ∷ delete a m

  unfoldable pub insert : K → V → List (K × V) → List (K × V)
  insert a v [] = (a, v) ∷ []
  insert a v ((b, w) ∷ m) = if k.same b a then (a, v) ∷ m else (b, w) ∷ insert a v m

  -- The key has no entry.
  abbrev pub NotKey : K → List (K × V) → Type ℓ
  NotKey a [] = Unit
  NotKey a ((b, v) ∷ m) = (b ≢ a) × NotKey a m

  pub NotKey-lookup : (a : K) (m : List (K × V)) → NotKey a m → lookup a m ≡ none
  unfolding lookup
  NotKey-lookup a [] n = refl
  NotKey-lookup a ((b, v) ∷ m) n = ground (arith, k.same_iff b a, NotKey-lookup a m n.1)

  pub lookup-NotKey : (a : K) (m : List (K × V)) → lookup a m ≡ none → NotKey a m
  unfolding lookup
  lookup-NotKey a [] n = tt
  lookup-NotKey a ((b, v) ∷ m) n = ground (arith, k.same_iff b a, lookup-NotKey a m)

  abbrev pub keys : List (K × V) → List K
  keys [] = []
  keys ((a, v) ∷ m) = a ∷ keys m

  -- No key has two entries.
  abbrev pub IsMap : List (K × V) → Type ℓ
  IsMap [] = Unit
  IsMap ((a, v) ∷ m) = NotKey a m × IsMap m

  pub lookup-insert :
      (a b : K) (v : V) (m : List (K × V))
      → lookup b (insert a v m) ≡ (if k.same a b then some v else lookup b m)
  unfolding lookup insert
  lookup-insert a b v [] = refl
  lookup-insert a b v ((c, w) ∷ m) =
      ground (arith, k.same_iff c a, k.same_iff c b, k.same_iff a b, lookup-insert a b v m)

  pub lookup-delete :
      (a b : K) (m : List (K × V))
      → IsMap m
      → lookup b (delete a m) ≡ (if k.same a b then none else lookup b m)
  unfolding lookup delete
  lookup-delete a b [] u = ground arith
  lookup-delete a b ((c, w) ∷ m) u = ground (
    arith,
    k.same_iff c a,
    k.same_iff c b,
    k.same_iff a b,
    lookup-delete a b m u.1,
    NotKey-lookup c m u.0,
  )

  pub length-delete :
      (a : K) (v : V) (m : List (K × V))
      → lookup a m ≡ some v
      → length m ≡ suc (length (delete a m))
  unfolding lookup delete
  length-delete a v [] h = cc
  length-delete a v ((b, w) ∷ m) h = ground (arith, length-delete a v m)

  pub lookup_short : (a : K) (m : List (K × V)) → length m ≤ 0 → lookup a m ≡ none
  unfolding lookup
  lookup_short a [] h = refl
  lookup_short a (x ∷ m) h = absurd (omega arith)

  -- What a smaller map holds, the larger one held.
  pub lookup-delete-some :
      (a b : K) (v : V) (m : List (K × V))
      → IsMap m
      → lookup b (delete a m) ≡ some v
      → (lookup b m ≡ some v) × (k.same a b ≡ false)
  lookup-delete-some a b v m u h = ground (arith, lookup-delete a b m u)

  pub NotKey-insert :
      (a b : K) (v : V) (m : List (K × V)) → a ≢ b → NotKey b m → NotKey b (insert a v m)
  unfolding insert
  NotKey-insert a b v [] ne n = (ne, tt)
  NotKey-insert a b v ((c, w) ∷ m) ne n = ground (arith, NotKey-insert a b v m ne n.1)

  pub insert-IsMap : (a : K) (v : V) (m : List (K × V)) → IsMap m → IsMap (insert a v m)
  unfolding insert
  insert-IsMap a v [] u = (tt, tt)
  insert-IsMap a v ((c, w) ∷ m) u = elim (Bool-cases (k.same c a)) [
    | inl e ↦ rw e (rw (← (k.same_iff c a).0 e) u)
    | inr e ↦ rw e (
      NotKey-insert a c v m (λ p. cc (e, (k.same_iff c a).1 (sym p))) u.0,
      insert-IsMap a v m u.1,
    )
  ]

  pub NotKey-delete : (a b : K) (m : List (K × V)) → NotKey b m → NotKey b (delete a m)
  unfolding delete
  NotKey-delete a b [] n = tt
  NotKey-delete a b ((c, w) ∷ m) n = ground (arith, NotKey-delete a b m n.1)

  pub delete-IsMap : (a : K) (m : List (K × V)) → IsMap m → IsMap (delete a m)
  unfolding delete
  delete-IsMap a [] u = tt
  delete-IsMap a ((c, w) ∷ m) u = ground (arith, delete-IsMap a m u.1, NotKey-delete a c m u.0)

  pub length-insert-le : (a : K) (v : V) (m : List (K × V)) → length (insert a v m) ≤ length m + 1
  unfolding insert
  length-insert-le a v [] = omega arith
  length-insert-le a v ((c, w) ∷ m) = ground (arith, length-insert-le a v m)

  pub All-insert {μ} :
      (P : K × V → Type μ) (a : K) (v : V) (m : List (K × V))
      → P (a, v)
      → All P m
      → All P (insert a v m)
  unfolding insert
  All-insert P a v [] p h = (p, tt)
  All-insert P a v ((b, w) ∷ m) p h = elim (Bool-cases (k.same b a)) [
    | inl e ↦ rw e (p, h.1)
    | inr e ↦ rw e (h.0, All-insert P a v m p h.1)
  ]

  pub All-delete {μ} :
      (P : K × V → Type μ) (a : K) (m : List (K × V)) → All P m → All P (delete a m)
  unfolding delete
  All-delete P a [] h = tt
  All-delete P a ((b, w) ∷ m) h = elim (Bool-cases (k.same b a)) [
    | inl e ↦ rw e h.1
    | inr e ↦ rw e (h.0, All-delete P a m h.1)
  ]

  pub lookup-All {μ} :
      (P : K × V → Type μ) (a : K) (v : V) (m : List (K × V))
      → All P m
      → lookup a m ≡ some v
      → P (a, v)
  unfolding lookup
  lookup-All P a v [] h e = cc
  lookup-All P a v ((b, w) ∷ m) h e = elim (Bool-cases (k.same b a)) [
    | inl s ↦
        let found : some w ≡ some v = rw s at e in
        rw (← (k.same_iff b a).0 s, ← some-inj w v found) h.0
    | inr s ↦ lookup-All P a v m h.1 (rw s at e)
  ]
    where
      some-inj : (x y : V) → some x ≡ some y → x ≡ y
      some-inj x y q = cc

  -- Every entry is the one that is found under its key.
  abbrev pub Found : List (K × V) → List (K × V) → Type κ
  Found m n = All (λ (e : K × V). lookup e.0 m ≡ some e.1) n

  Found-weaken :
      (a : K) (v : V) (m n : List (K × V)) → NotKey a n → Found m n → Found ((a, v) ∷ m) n
  unfolding lookup
  Found-weaken a v m [] u h = tt
  Found-weaken a v m ((b, w) ∷ n) u h = (
    elim (Bool-cases (k.same a b)) [
      | inl e ↦ absurd (u.0 (sym ((k.same_iff a b).0 e)))
      | inr e ↦ rw e h.0
    ],
    Found-weaken a v m n u.1 h.1,
  )

  pub IsMap-Found : (m : List (K × V)) → IsMap m → Found m m
  unfolding lookup
  IsMap-Found [] u = tt
  IsMap-Found ((a, v) ∷ m) u =
      (rw ((k.same_iff a a).1 refl) refl, Found-weaken a v m m u.0 (IsMap-Found m u.1))

  pub lookup-insert-same : (a : K) (v : V) (m : List (K × V)) → lookup a (insert a v m) ≡ some v
  lookup-insert-same a v m = lookup-insert a a v m ∙ rw ((k.same_iff a a).1 refl) refl
