-- ===== src/ObjectStore/Conditional.antt =====
-- Conditional puts (objstore/memstore.go).
use Prim.Native.String.{String}
use text.Mathlib.Text.{◌==◌ as str_eq}
use text.Mathlib.TextEquality.{eq_iff}
use gossip_mesh.Base.{
  ℕ, ◌+◌, ◌<◌, ◌≡◌, ◌≢◌, ◌⊎◌, refl, sym, ap, ◌∙◌, arith, false, not, ◌&&◌, none, some, List, [],
  ◌∷◌, inl, inr, if◌then◌else◌, Bool-cases, Option-cases, u64_mod,
}
use gossip_mesh.Base.Table.{insert, string_key, lookup, lookup-insert}
use gossip_mesh.ObjectStore.{
  StoreError, not_found, precondition_failed, done, failed, ObjectInfo, PutOption, if_match,
  resolve_put_options, MemObject, MemoryObjectStore, store_object, put, get,
}

module _ (sprint_version : ℕ → String) where
  -- The three ways a put can end.
  put_cases :
      (s : MemoryObjectStore) (key : String) (bytes : List ℕ) (opts : List PutOption)
      → (put sprint_version s key bytes opts ≡ store_object sprint_version s key bytes)
        ⊎ (((lookup key s.objects ≡ none)
              × (put sprint_version s key bytes opts ≡ (s, failed not_found)))
            ⊎ ((lookup key s.objects ≢ none)
                × (put sprint_version s key bytes opts ≡ (s, failed precondition_failed))))
  unfolding put
  put_cases s key bytes opts =
      let o = resolve_put_options opts in
      elim (Option-cases (lookup key s.objects)) [
        | inl e ↦ elim (Bool-cases (str_eq o.if_match "")) [
          | inl any ↦ inl (rw (e, put, any) refl)
          | inr some_tag ↦ inr (inl (e, rw (e, put, some_tag) refl))
        ]
        | inr (x, e) ↦ elim (Bool-cases o.if_none_match) [
          | inl absent ↦ inr (inr (λ n. cc (e, n), rw (e, put, absent) refl))
          | inr present ↦
              elim (Bool-cases (not (str_eq o.if_match "") && not (str_eq x.etag o.if_match))) [
                | inl differs ↦ inr (inr (λ n. cc (e, n), rw (e, put, present, differs) refl))
                | inr same ↦ inl (rw (e, put, present, same) refl)
              ]
        ]
      ]

  store_object-get :
      (s : MemoryObjectStore) (key k : String) (bytes : List ℕ) (s' : MemoryObjectStore)
      (info : ObjectInfo)
      → store_object sprint_version s key bytes ≡ (s', done info)
      → get s' k ≡ (if str_eq key k then done (bytes, info) else get s k)
  unfolding store_object get
  store_object-get s key k bytes s' info e = ground (
    arith,
    ap (λ r. r.0) e,
    ap (λ r. r.1) e,
    lookup-insert key k (record { data_bytes = bytes; etag = sprint_version s.version }) s.objects,
  )

  -- After a put that succeeds, the key reads back the bytes with the information that the put returned,
  -- and every other key reads what it read before.
  pub get-put :
      (s : MemoryObjectStore) (key k : String) (bytes : List ℕ) (opts : List PutOption)
      (s' : MemoryObjectStore) (info : ObjectInfo)
      → put sprint_version s key bytes opts ≡ (s', done info)
      → get s' k ≡ (if str_eq key k then done (bytes, info) else get s k)
  get-put s key k bytes opts s' info e = elim (put_cases s key bytes opts) [
    | inl stored ↦ store_object-get s key k bytes s' info (sym stored ∙ e)
    | inr (inl (_, missing)) ↦ cc (missing, e)
    | inr (inr (_, refused)) ↦ cc (refused, e)
  ]

  pub put-insert :
      (s : MemoryObjectStore) (key : String) (bytes : List ℕ) (opts : List PutOption)
      (s' : MemoryObjectStore) (info : ObjectInfo)
      → put sprint_version s key bytes opts ≡ (s', done info)
      → s'.objects
        ≡ insert key (record { data_bytes = bytes; etag = sprint_version s.version }) s.objects
  unfolding store_object
  put-insert s key bytes opts s' info e = elim (put_cases s key bytes opts) [
    | inl stored ↦ ap (λ r. r.0.objects) (sym e ∙ stored)
    | inr (inl (_, missing)) ↦ cc (missing, e)
    | inr (inr (_, refused)) ↦ cc (refused, e)
  ]

  -- A put that fails leaves the store as it was; the error tells whether the key was there.
  pub put_failed :
      (s : MemoryObjectStore) (key : String) (bytes : List ℕ) (opts : List PutOption)
      (s' : MemoryObjectStore) (why : StoreError)
      → put sprint_version s key bytes opts ≡ (s', failed why)
      → (s' ≡ s)
        × (((why ≡ not_found) × (lookup key s.objects ≡ none))
            ⊎ ((why ≡ precondition_failed) × (lookup key s.objects ≢ none)))
  unfolding store_object
  put_failed s key bytes opts s' why e = elim (put_cases s key bytes opts) [
    | inl stored ↦ cc (stored, e)
    | inr (inl (absent, missing)) ↦ (cc (missing, e), inl (cc (missing, e), absent))
    | inr (inr (present, refused)) ↦ (cc (refused, e), inr (cc (refused, e), present))
  ]

-- Every object has the ETag of a version that has been given out.
abbrev pub IsStore : (ℕ → String) → MemoryObjectStore → Type 0
IsStore sprint_version s =
    (k : String) (x : MemObject)
    → lookup k s.objects ≡ some x
    → (v : ℕ) × (v < s.version) × (x.etag ≡ sprint_version v)

-- `injective` is what the format "v%d" gives: different versions are written differently.
module _ (sprint_version : ℕ → String)
    (injective : (m n : ℕ) → sprint_version m ≡ sprint_version n → m ≡ n) where
  put_matched :
      (s : MemoryObjectStore) (key tag : String) (bytes : List ℕ) (s' : MemoryObjectStore)
      (info : ObjectInfo)
      → str_eq tag "" ≡ false
      → put sprint_version s key bytes (if_match tag ∷ []) ≡ (s', done info)
      → ((x : MemObject) × (lookup key s.objects ≡ some x) × (x.etag ≡ tag))
        × (put sprint_version s key bytes (if_match tag ∷ [])
            ≡ store_object sprint_version s key bytes)
  unfolding put
  put_matched s key tag bytes s' info asked e = elim (Option-cases (lookup key s.objects)) [
    | inl absent ↦ cc (rw (absent, put, asked) at e)
    | inr (x, there) ↦ elim (Bool-cases (str_eq x.etag tag)) [
      | inl same ↦ ((x, there, (eq_iff x.etag tag).0 same), rw (there, put, asked, same) refl)
      | inr differs ↦ cc (rw (there, put, asked, differs) at e)
    ]
  ]

  -- If versions are written differently and every object has the ETag of a version given out, no
  -- update is lost: of two puts that ask for one ETag, not empty, the second one is refused once the
  -- first one has succeeded.
  pub put_conflict :
      (s : MemoryObjectStore) (key tag : String) (first second : List ℕ) (s' : MemoryObjectStore)
      (info : ObjectInfo)
      → IsStore sprint_version s
      → tag ≢ ""
      → put sprint_version s key first (if_match tag ∷ []) ≡ (s', done info)
      → put sprint_version s' key second (if_match tag ∷ []) ≡ (s', failed precondition_failed)
  unfolding put store_object
  put_conflict s key tag first second s' info v asked e =
      let asked' : str_eq tag "" ≡ false = ground (arith, eq_iff tag "") in
      let ((x, there, old), stored) = put_matched s key tag first s' info asked' e in
      let (n, before, written) = v key x there in
      let stored' : s' ≡ (store_object sprint_version s key first).0 =
        ap (λ r. r.0) (sym e ∙ stored) in
      let now : lookup key s'.objects
          ≡ some (record { data_bytes = first; etag = sprint_version s.version }) =
        rw stored' (
          lookup-insert key key (record { data_bytes = first; etag = sprint_version s.version })
            s.objects
          ∙ rw ((eq_iff key key).1 refl) refl) in
      let other : str_eq (sprint_version s.version) tag ≡ false =
        ground
          (arith, eq_iff (sprint_version s.version) tag, injective s.version n, written, old) in
      rw (now, put, asked', other) refl

  store_object-IsStore :
      (s : MemoryObjectStore) (key : String) (bytes : List ℕ)
      → IsStore sprint_version s
      → s.version + 1 < u64_mod
      → IsStore sprint_version (store_object sprint_version s key bytes).0
  unfolding store_object
  store_object-IsStore s key bytes v room k x e = elim (Bool-cases (str_eq key k)) [
    | inl same ↦ (
      s.version,
      omega arith,
      ground (
        arith,
        lookup-insert key k (record { data_bytes = bytes; etag = sprint_version s.version })
            s.objects,
      ),
    )
    | inr other ↦
        let (n, before, written) = v k x (
          ground (
            arith,
            lookup-insert key k (record { data_bytes = bytes; etag = sprint_version s.version })
                s.objects,
          )) in
        (n, omega arith, written)
  ]

  -- Every put keeps the objects' ETags among those of the versions given out, if they were and the
  -- version does not wrap.
  pub put-IsStore :
      (s : MemoryObjectStore) (key : String) (bytes : List ℕ) (opts : List PutOption)
      → IsStore sprint_version s
      → s.version + 1 < u64_mod
      → IsStore sprint_version (put sprint_version s key bytes opts).0
  put-IsStore s key bytes opts v room = elim (put_cases sprint_version s key bytes opts) [
    | inl stored ↦ rw stored (store_object-IsStore s key bytes v room)
    | inr (inl (_, missing)) ↦ rw missing v
    | inr (inr (_, refused)) ↦ rw refused v
  ]
