-- ===== src/Holepunch/Cleanup.antt =====
-- CleanupSignal over the store in memory (holepunch/signal.go).
use Prim.Native.String.{String}
use text.Mathlib.Text.{◌==◌ as str_eq, starts_with}
use text.Mathlib.TextEquality.{eq_iff}
use gossip_mesh.Base.{
  ℕ, ◌≡◌, refl, ◌∙◌, true, false, Option, none, some, List, [], ◌∷◌, inl, inr, All, All-map,
  All-keep_if, Any, if◌then◌else◌, Bool-cases, Option-cases,
}
use gossip_mesh.Base.Table.{string_key, lookup, keys, lookup-delete, IsMap, delete-IsMap}
use gossip_mesh.ObjectStore.{MemoryObjectStore, MemObject, delete_object, list}
use gossip_mesh.Bootstrap.Memory.{memory_ops, kept}
use gossip_mesh.Holepunch.{Signal, signal_prefix, cleanup_loop, cleanup_signal}

pub keys_of_lookup :
    (k : String) (x : MemObject) (m : List (String × MemObject))
    → lookup k m ≡ some x
    → Any (λ j. j ≡ k) (keys m)
unfolding lookup
keys_of_lookup k x [] e = cc
keys_of_lookup k x ((b, y) ∷ m) e = elim (Bool-cases (str_eq b k)) [
  | inl same ↦ inl ((eq_iff b k).0 same)
  | inr other ↦ inr (keys_of_lookup k x m (rw other at e))
]

pub everywhere : (ks : List String) → All (λ j. Unit {0}) ks
everywhere [] = tt
everywhere (j ∷ ks) = (tt, everywhere ks)

module _ (sprint_version : ℕ → String) (sort_strings : List String → List String)
    (marshal : Signal → Option (List ℕ)) (unmarshal : List ℕ → Option Signal) where
  abbrev cleaned : MemoryObjectStore → List String → MemoryObjectStore
  cleaned s ks = cleanup_loop (memory_ops sprint_version sort_strings) marshal unmarshal s ks

  deleted :
      (s : MemoryObjectStore) (j k : String)
      → IsMap s.objects
      → lookup k (delete_object s j).objects ≡ (if str_eq j k then none else lookup k s.objects)
  unfolding delete_object
  deleted s j k u = lookup-delete j k s.objects u

  deleted-IsMap :
      (s : MemoryObjectStore) (j : String) → IsMap s.objects → IsMap (delete_object s j).objects
  unfolding delete_object
  deleted-IsMap s j u = delete-IsMap j s.objects u

  stays_gone :
      (s : MemoryObjectStore) (ks : List String) (k : String)
      → IsMap s.objects
      → lookup k s.objects ≡ none
      → lookup k (cleaned s ks).objects ≡ none
  unfolding cleanup_loop
  stays_gone s [] k u e = e
  stays_gone s (j ∷ ks) k u e = stays_gone (delete_object s j) ks k (deleted-IsMap s j u) (
      deleted s j k u
      ∙ (elim (Bool-cases (str_eq j k)) [ inl same ↦ rw same refl | inr other ↦ rw other e ]))

  goes :
      (s : MemoryObjectStore) (ks : List String) (k : String)
      → IsMap s.objects
      → Any (λ j. j ≡ k) ks
      → lookup k (cleaned s ks).objects ≡ none
  unfolding cleanup_loop
  goes s [] k u there = elim there [ ]
  goes s (j ∷ ks) k u (inl here) =
      stays_gone (delete_object s j) ks k (deleted-IsMap s j u)
        (deleted s j k u ∙ rw ((eq_iff j k).1 here) refl)
  goes s (j ∷ ks) k u (inr later) = goes (delete_object s j) ks k (deleted-IsMap s j u) later

  stays :
      (s : MemoryObjectStore) (ks : List String) (k : String)
      → IsMap s.objects
      → All (λ j. str_eq j k ≡ false) ks
      → lookup k (cleaned s ks).objects ≡ lookup k s.objects
  unfolding cleanup_loop
  stays s [] k u a = refl
  stays s (j ∷ ks) k u a =
      stays (delete_object s j) ks k (deleted-IsMap s j u) a.1 ∙ deleted s j k u ∙ rw a.0 refl

  other_key :
      (prefix j k : String)
      → starts_with k prefix ≡ false
      → starts_with j prefix ≡ true
      → str_eq j k ≡ false
  other_key prefix j k off on = elim (Bool-cases (str_eq j k)) [
    | inl same ↦ cc (on, off, (eq_iff j k).0 same)
    | inr other ↦ other
  ]

  -- If the sort keeps the keys and adds none, CleanupSignal takes every signal of the pair out of the store,
  -- the other node's too, and leaves every other object.
  pub cleanup_signal_lem :
      (s : MemoryObjectStore) (self_id target_id k : String)
      → ((j : String) (ks : List String) → Any (λ i. i ≡ j) ks → Any (λ i. i ≡ j) (sort_strings ks))
      → ((P : String → Type 0) (ks : List String) → All P ks → All P (sort_strings ks))
      → IsMap s.objects
      → let s' =
          (cleanup_signal
            (memory_ops sprint_version sort_strings)
            marshal
            unmarshal
            s
            self_id
            target_id).0 in
        lookup k s'.objects
        ≡ (if starts_with k (signal_prefix self_id target_id) then none else lookup k s.objects)
  unfolding cleanup_signal list
  cleanup_signal_lem s self_id target_id k sorts adds_none u =
      let prefix = signal_prefix self_id target_id in
      elim (Bool-cases (starts_with k prefix)) [
        | inl under ↦ rw under (elim (Option-cases (lookup k s.objects)) [
          | inl e ↦ stays_gone s (list sort_strings s prefix) k u e
          | inr (x, e) ↦ goes s (list sort_strings s prefix) k u (
              sorts k _ (
                kept (λ j. starts_with j prefix) k (keys s.objects) under
                  (keys_of_lookup k x s.objects e)))
        ])
        | inr off ↦ rw off (
            stays s (list sort_strings s prefix) k u (
              adds_none _ _ (
                All-map _ _ (λ j on. other_key prefix j k off on.1) _
                  (All-keep_if (λ j. Unit {0}) (λ j. starts_with j prefix) (keys s.objects)
                    (everywhere (keys s.objects))))))
      ]
