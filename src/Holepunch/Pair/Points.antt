-- ===== src/Holepunch/Pair/Points.antt =====
-- What one step of an attempt makes of the signals in the store in memory (holepunch/punch.go, signal.go).
use Prim.Native.String.{String}
use text.Mathlib.Text.{◌==◌ as str_eq, starts_with}
use gossip_mesh.Base.{
  ℕ, ◌≡◌, ◌≢◌, ◌⊎◌, sym, subst, ◌∙◌, arith, true, false, Option, some, List, [], inl, inr, All, Any,
  if◌then◌else◌, Bool-cases,
}
use gossip_mesh.Base.Table.{string_key, lookup-delete, IsMap}
use gossip_mesh.ObjectStore.{
  MemoryObjectStore, ObjectInfo, done, failed, put, get, delete_object, not_found,
}
use gossip_mesh.ObjectStore.Conditional.{get-put}
use gossip_mesh.Holepunch.{Signal, PunchEnd, dialing}
use gossip_mesh.Holepunch.Pair.{
  Party, PunchPc, writing, waiting, reading, listing, deleting, returned,
}

module _ (unmarshal : List ℕ → Option Signal) where
  -- The object under the key reads as the signal.
  abbrev pub Reads : MemoryObjectStore → String → Signal → Type 0
  Reads s k sig =
      (bytes : List ℕ) × (info : ObjectInfo) × (get s k ≡ done (bytes, info))
      × (unmarshal bytes ≡ some sig)

  -- Every signal that is in the second store and not in the first one is of the party.
  abbrev pub Adds : Party → MemoryObjectStore → MemoryObjectStore → Type 0
  Adds p s s' =
      (k : String) (sig : Signal)
      → Reads s' k sig
      → Reads s k sig ⊎ ((sig.node_id ≡ p.id) × (sig.addr ≡ p.addr))

  module _ (prefix : String) where
    -- Every signal of the party has an address that the predicate allows.
    abbrev pub Addressed : (String → Type 0) → Party → MemoryObjectStore → Type 0
    Addressed T q s =
        (k : String) (sig : Signal)
        → starts_with k prefix ≡ true
        → Reads s k sig
        → sig.node_id ≡ q.id
        → T sig.addr

    -- Every signal of the party is under one of the keys.
    abbrev pub Within : Party → MemoryObjectStore → List String → Type 0
    Within p s ks =
        (k : String) (sig : Signal)
        → starts_with k prefix ≡ true
        → Reads s k sig
        → sig.node_id ≡ p.id
        → Any (λ j. j ≡ k) ks

    -- Which signals of its own an attempt may have in the store.
    abbrev pub Left : Party → MemoryObjectStore → PunchPc → Type 0
    Left p s writing = Within p s []
    Left p s (deleting ks end) = Within p s ks
    Left p s (returned end) = Within p s []
    Left p s waiting = Unit
    Left p s (reading ks found) = Unit
    Left p s (listing end) = Unit

    abbrev pub Aims : (String → Type 0) → PunchEnd → Type 0
    Aims T end = (a : String) → end ≡ dialing a → T a

    -- What the attempt has found, and the address that it dials, are allowed.
    abbrev pub Aimed : (String → Type 0) → PunchPc → Type 0
    Aimed T writing = Unit
    Aimed T waiting = Unit
    Aimed T (reading ks found) =
        All (λ k. starts_with k prefix ≡ true) ks
        × ((sig : Signal) → found.1 ≡ some sig → T sig.addr)
    Aimed T (listing end) = Aims T end
    Aimed T (deleting ks end) = Aims T end
    Aimed T (returned end) = Aims T end

    pub Adds-Addressed :
        (T : String → Type 0) (p q : Party) (s s' : MemoryObjectStore)
        → Adds p s s'
        → (p.id ≡ q.id → T p.addr)
        → Addressed T q s
        → Addressed T q s'
    Adds-Addressed T p q s s' adds own v k sig under there from = elim (adds k sig there) [
      | inl before ↦ v k sig under before from
      | inr (mine, at) ↦ subst T (sym at) (own (sym mine ∙ from))
    ]

    Adds-Within :
        (p q : Party) (s s' : MemoryObjectStore) (ks : List String)
        → Adds p s s'
        → p.id ≢ q.id
        → Within q s ks
        → Within q s' ks
    Adds-Within p q s s' ks adds other v k sig under there from = elim (adds k sig there) [
      | inl before ↦ v k sig under before from
      | inr (mine, at) ↦ absurd (other (sym mine ∙ from))
    ]

    pub Adds-Left :
        (p q : Party) (s s' : MemoryObjectStore) (pc : PunchPc)
        → Adds p s s'
        → p.id ≢ q.id
        → Left q s pc
        → Left q s' pc
    Adds-Left p q s s' writing adds other v = Adds-Within p q s s' [] adds other v
    Adds-Left p q s s' (deleting ks end) adds other v = Adds-Within p q s s' ks adds other v
    Adds-Left p q s s' (returned end) adds other v = Adds-Within p q s s' [] adds other v
    Adds-Left p q s s' waiting adds other v = tt
    Adds-Left p q s s' (reading ks found) adds other v = tt
    Adds-Left p q s s' (listing end) adds other v = tt

  get-delete :
      (s : MemoryObjectStore) (j k : String)
      → IsMap s.objects
      → get (delete_object s j) k ≡ (if str_eq j k then failed not_found else get s k)
  unfolding get delete_object
  get-delete s j k u = ground (arith, lookup-delete j k s.objects u)

  -- After a delete, the signals under the other keys.
  pub Reads-delete :
      (s : MemoryObjectStore) (j k : String) (sig : Signal)
      → IsMap s.objects
      → Reads (delete_object s j) k sig
      → (str_eq j k ≡ false) × Reads s k sig
  Reads-delete s j k sig u (bytes, info, there, read) =
      let now = get-delete s j k u in
      elim (Bool-cases (str_eq j k)) [
        | inl same ↦ cc (rw same at now, there)
        | inr other ↦ (other, (bytes, info, cc (rw other at now, there), read))
      ]

  -- What is under the key after a put without options.
  pub Reads-put :
      (sprint_version : ℕ → String) (s s' : MemoryObjectStore) (key k : String) (bytes : List ℕ)
      (info : ObjectInfo) (sig : Signal)
      → put sprint_version s key bytes [] ≡ (s', done info)
      → Reads s' k sig
      → Reads s k sig ⊎ (unmarshal bytes ≡ some sig)
  Reads-put sprint_version s s' key k bytes info sig stored (found, info', there, read) =
      let now = get-put sprint_version s key k bytes [] s' info stored in
      elim (Bool-cases (str_eq key k)) [
        | inl same ↦ inr (cc (rw same at now, there, read))
        | inr other ↦ inl (found, info', cc (rw other at now, there), read)
      ]
