-- ===== src/ObjectStore.antt =====
-- objstore/objstore.go and objstore/memstore.go: the store in memory, with conditional puts. Times are
-- left out. fmt.Sprintf, which writes a version as an ETag, and sort.Strings are parameters.
pub mod Conditional
mod Examples
use Prim.Native.String.{String}
use text.Mathlib.Text.{◌==◌ as str_eq, starts_with}
use gossip_mesh.Base.{
  ℕ, ◌+◌, ◌%◌, Bool, true, false, not, ◌&&◌, Option, none, some, List, [], ◌∷◌, length, keep_if,
  if◌then◌else◌, u64_mod,
}
use gossip_mesh.Base.Table.{string_key, lookup, insert, delete, keys}

pub data StoreError : Type 0 where
  not_found precondition_failed : StoreError

pub data StoreResult {ℓ} (A : Type ℓ) : Type ℓ where
  done : A → StoreResult A
  failed : StoreError → StoreResult A

pub record ObjectInfo : Type 0 where
  pub size : ℕ
  pub etag : String

pub record PutOptions : Type 0 where
  pub if_none_match : Bool
  pub if_match : String

abbrev pub PutOption : Type 0
PutOption = PutOptions → PutOptions

abbrev pub if_none_match : PutOption
if_none_match o = record o { if_none_match = true }

abbrev pub if_match : String → PutOption
if_match etag o = record o { if_match = etag }

-- The loop over the options, from the options before it.
abbrev pub apply_options : List PutOption → PutOptions → PutOptions
apply_options [] o = o
apply_options (f ∷ fs) o = apply_options fs (f o)

abbrev pub resolve_put_options : List PutOption → PutOptions
resolve_put_options opts = apply_options opts (record { if_none_match = false; if_match = "" })

pub record MemObject : Type 0 where
  pub data_bytes : List ℕ
  pub etag : String

pub record MemoryObjectStore : Type 0 where
  pub objects : List (String × MemObject)
  pub version : ℕ

pub new_memory_object_store : MemoryObjectStore
new_memory_object_store = record { objects = []; version = 0 }

module _ (sprint_version : ℕ → String) where
  -- Put behind its checks: the object is stored under the next ETag.
  unfoldable pub store_object :
      MemoryObjectStore → String → List ℕ → MemoryObjectStore × StoreResult ObjectInfo
  store_object s key bytes =
      let etag : String = sprint_version s.version in
      (
        record {
          objects = insert key (record { data_bytes = bytes; etag = etag }) s.objects;
          version = (s.version + 1) % u64_mod;
        },
        done (record { size = length bytes; etag = etag }),
      )

  unfoldable pub put :
      MemoryObjectStore
      → String
      → List ℕ
      → List PutOption
      → MemoryObjectStore × StoreResult ObjectInfo
  put s key bytes opts =
      let o : PutOptions = resolve_put_options opts in
      let stored : MemoryObjectStore × StoreResult ObjectInfo = store_object s key bytes in
      elim (lookup key s.objects) [
        | none ↦ if not (str_eq o.if_match "") then (s, failed not_found) else stored
        | some existing ↦
            if o.if_none_match
            then (s, failed precondition_failed)
            else if not (str_eq o.if_match "") && not (str_eq existing.etag o.if_match)
            then (s, failed precondition_failed)
            else stored
      ]

unfoldable pub get : MemoryObjectStore → String → StoreResult (List ℕ × ObjectInfo)
get s key = elim (lookup key s.objects) [
  | none ↦ failed not_found
  | some obj ↦ done (obj.data_bytes, record { size = length obj.data_bytes; etag = obj.etag })
]

unfoldable pub list : (List String → List String) → MemoryObjectStore → String → List String
list sort_strings s prefix = sort_strings (keep_if (λ k. starts_with k prefix) (keys s.objects))

unfoldable pub delete_object : MemoryObjectStore → String → MemoryObjectStore
delete_object s key = record s { objects = delete key s.objects }
