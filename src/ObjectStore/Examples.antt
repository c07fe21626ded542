-- ===== src/ObjectStore/Examples.antt =====
-- A store with one object, and two writers that have read it.
use Prim.Native.String.{String, len, ◌++◌ as append}
use text.Mathlib.TextEquality.{eq_iff}
use text.Mathlib.TextPositions.{len-append}
use gossip_mesh.Base.{ℕ, zero, suc, ◌+◌, ◌≡◌, ap, refl, arith, [], ◌∷◌}
use gossip_mesh.Base.Table.{string_key, lookup, insert}
use gossip_mesh.ObjectStore.{
  precondition_failed, done, failed, ObjectInfo, if_match, if_none_match, MemObject,
  MemoryObjectStore, store_object, put,
}
use gossip_mesh.ObjectStore.Conditional.{IsStore, put_conflict}

-- A version as a tally.
abbrev tally : ℕ → String
tally zero = "v"
tally (suc n) = append "v" (tally n)

len-tally : (n : ℕ) → len (tally n) ≡ n + 1
len-tally zero = refl
len-tally (suc n) = omega (arith, len-append "v" (tally n), len-tally n)

tally_injective : (m n : ℕ) → tally m ≡ tally n → m ≡ n
tally_injective m n e = omega (arith, ap len e, len-tally m, len-tally n)

abbrev leader_object : MemObject
leader_object = record { data_bytes = 1 ∷ []; etag = "v" }

abbrev leader_store : MemoryObjectStore
leader_store = record { objects = ("leader", leader_object) ∷ []; version = 1 }

abbrev second_store : MemoryObjectStore
second_store = record {
  objects = ("leader", record { data_bytes = 2 ∷ []; etag = tally 1 }) ∷ [];
  version = 2;
}

abbrev second_info : ObjectInfo
second_info = record { size = 1; etag = tally 1 }

leader_store-IsStore : IsStore tally leader_store
unfolding lookup
leader_store-IsStore k x e = (0, omega arith, ground arith)

second_put :
    put tally leader_store "leader" (2 ∷ []) (if_match "v" ∷ []) ≡ (second_store, done second_info)
unfolding put store_object lookup insert
second_put = refl

absent_put :
    put tally leader_store "leader" (2 ∷ []) (if_none_match ∷ [])
    ≡ (leader_store, failed precondition_failed)
unfolding put lookup
absent_put = refl

put_conflict_example :
    put tally second_store "leader" (3 ∷ []) (if_match "v" ∷ [])
    ≡ (second_store, failed precondition_failed)
put_conflict_example =
    put_conflict tally tally_injective leader_store "leader" "v" (2 ∷ []) (3 ∷ []) second_store
      second_info leader_store-IsStore (λ e. cc ((eq_iff "v" "").1 e)) second_put
