-- ===== src/Holepunch/Pair/Steps.antt =====
-- One step of an attempt over the store in memory (holepunch/punch.go).
use Prim.Native.String.{String}
use text.Mathlib.Text.{◌==◌ as str_eq, starts_with}
use text.Mathlib.TextEquality.{eq_iff}
use gossip_mesh.Base.{
  ℕ, ◌≡◌, ◌≢◌, refl, ap, subst, Bool, true, false, Option, none, some, List, [], ◌∷◌, inl, inr, All,
  All-map, All-keep_if, Any, Bool-cases, Option-cases,
}
use gossip_mesh.Base.Table.{string_key, lookup, keys, IsMap, delete-IsMap}
use gossip_mesh.ObjectStore.{MemoryObjectStore, get, list, delete_object}
use gossip_mesh.Bootstrap.Discovery.{StoreResult-cases}
use gossip_mesh.Bootstrap.Memory.{memory_ops, kept}
use gossip_mesh.Holepunch.{
  Signal, signal_prefix, note_signal, PunchEnd, timed_out, dialing, not_written, no_nonce,
}
use gossip_mesh.Holepunch.Cleanup.{keys_of_lookup, everywhere}
use gossip_mesh.Holepunch.Pair.{
  Party, PunchPc, writing, waiting, reading, listing, deleting, returned, punch_step,
}
use gossip_mesh.Holepunch.Pair.Points.{Addressed, Within, Left, Aims, Aimed, Reads-delete}
use gossip_mesh.Holepunch.Pair.Write.{Stepped, still, write_step}

module _ (sprint_version : ℕ → String) (sort_strings : List String → List String)
    (marshal : Signal → Option (List ℕ)) (unmarshal : List ℕ → Option Signal)
    (sorts : (k : String) (ks : List String)
      → Any (λ j. j ≡ k) ks
      → Any (λ j. j ≡ k) (sort_strings ks))
    (adds_none : (P : String → Type 0) (ks : List String) → All P ks → All P (sort_strings ks))
    (reads_back : (sig : Signal) (bytes : List ℕ)
      → marshal sig ≡ some bytes
      → unmarshal bytes ≡ some sig) where
  abbrev step :
      Party → String → ℕ → Bool → MemoryObjectStore → PunchPc → MemoryObjectStore × PunchPc
  step = punch_step (memory_ops sprint_version sort_strings) marshal unmarshal

  module _ (prefix : String) (p q : Party) (same_pair : signal_prefix p.id q.id ≡ prefix)
      (others : p.id ≢ q.id) (T : String → Type 0) where
    abbrev Kept : MemoryObjectStore → MemoryObjectStore × PunchPc → Type 0
    Kept =
        Stepped sprint_version sort_strings marshal unmarshal sorts adds_none reads_back prefix p q
          same_pair others T

    stay :
        (s : MemoryObjectStore) (pc : PunchPc)
        → IsMap s.objects
        → Aimed unmarshal prefix T pc
        → Left unmarshal prefix p s pc
        → Kept s (s, pc)
    stay =
        still sprint_version sort_strings marshal unmarshal sorts adds_none reads_back prefix p q
          same_pair others T

    under_prefix :
        (s : MemoryObjectStore)
        → All (λ k. starts_with k prefix ≡ true) (list sort_strings s prefix)
    unfolding list
    under_prefix s = adds_none _ _ (
        All-map _ _ (λ k both. both.1) _
          (All-keep_if (λ k. Unit {0}) (λ k. starts_with k prefix) (keys s.objects)
            (everywhere (keys s.objects))))

    -- What is under the prefix is listed.
    pub list-Within :
        (s : MemoryObjectStore) → Within unmarshal prefix p s (list sort_strings s prefix)
    unfolding list get
    list-Within s k sig under (bytes, info, there, read) _ =
        elim (Option-cases (lookup k s.objects)) [
          | inl absent ↦ cc (rw (absent, get) at there)
          | inr (x, e) ↦ sorts k _ (
              kept (λ j. starts_with j prefix) k (keys s.objects) under
                (keys_of_lookup k x s.objects e))
        ]

    delete_step :
        (s : MemoryObjectStore) (key : String) (rest : List String) (end : PunchEnd)
        → IsMap s.objects
        → Aims unmarshal prefix T end
        → Within unmarshal prefix p s (key ∷ rest)
        → Kept s (delete_object s key, deleting rest end)
    unfolding delete_object
    delete_step s key rest end u aim within = (
      delete-IsMap key s.objects u,
      λ k sig r. inl (Reads-delete unmarshal s key k sig u r).1,
      aim,
      λ k sig under r from.
          let (other, before) = Reads-delete unmarshal s key k sig u r in
          elim (within k sig under before from) [
            | inl here ↦ cc (other, (eq_iff key k).1 here)
            | inr later ↦ later
          ],
    )

    note_step :
        (s : MemoryObjectStore) (sig : Signal) (found : Option Signal × Option Signal)
        → (sig.node_id ≡ q.id → T sig.addr)
        → ((x : Signal) → found.1 ≡ some x → T x.addr)
        → (x : Signal)
        → (note_signal
            (memory_ops sprint_version sort_strings)
            marshal
            unmarshal
            p.id
            q.id
            sig
            found).1
          ≡ some x
        → T x.addr
    note_step s sig found named before x e = elim (Bool-cases (str_eq sig.node_id p.id)) [
      | inl own ↦ before x (rw own at e)
      | inr other ↦ elim (Bool-cases (str_eq sig.node_id q.id)) [
        | inl mine ↦
            let taken : some sig ≡ some x = rw (other, mine) at e in
            subst T (ap (λ o. elim o [ none ↦ sig.addr | some y ↦ y.addr ]) taken)
              (named ((eq_iff sig.node_id q.id).0 mine))
        | inr neither ↦ before x (rw (other, neither) at e)
      ]
    ]

    read_step :
        (now : ℕ) (late : Bool) (s : MemoryObjectStore) (key : String) (rest : List String)
        (found : Option Signal × Option Signal)
        → IsMap s.objects
        → Addressed unmarshal prefix T q s
        → Aimed unmarshal prefix T (reading (key ∷ rest) found)
        → Kept s (step p q.id now late s (reading (key ∷ rest) found))
    unfolding punch_step
    read_step now late s key rest found u named ((under, below), before) =
        elim (StoreResult-cases (get s key)) [
          | inl (inl gone) ↦
              rw (gone, punch_step) (stay s (reading rest found) u (below, before) tt)
          | inl (inr refused) ↦ rw (refused, punch_step) (stay s waiting u tt tt)
          | inr ((bytes, info), there) ↦ elim (Option-cases (unmarshal bytes)) [
            | inl bad ↦
                rw (there, punch_step, bad) (stay s (reading rest found) u (below, before) tt)
            | inr (sig, good) ↦
                rw (there, punch_step, good)
                  (stay s
                    (reading rest (
                      note_signal (memory_ops sprint_version sort_strings) marshal unmarshal p.id
                        q.id sig found))
                    u
                    (
                      below,
                      note_step s sig found (named key sig under (bytes, info, there, good)) before,
                    )
                    tt)
          ]
        ]

    -- One step of an attempt: the store stays a map, what it adds are signals of the node, and what it has
    -- found, and what it may have left, stay as the invariant says.
    pub punch_step-Stepped :
        (now : ℕ) (late : Bool) (s : MemoryObjectStore) (pc : PunchPc)
        → IsMap s.objects
        → Addressed unmarshal prefix T q s
        → Aimed unmarshal prefix T pc
        → Left unmarshal prefix p s pc
        → Kept s (step p q.id now late s pc)
    unfolding punch_step
    punch_step-Stepped now late s writing u named aim left =
        write_step sprint_version sort_strings marshal unmarshal sorts adds_none reads_back prefix p
          q same_pair others T now late s u left
    punch_step-Stepped now true s waiting u named aim left =
        stay s (listing timed_out) u (λ a e. cc e) tt
    punch_step-Stepped now false s waiting u named aim left = rw same_pair (
        stay s (reading (list sort_strings s prefix) (none, none)) u (under_prefix s, λ sig e. cc e)
          tt)
    punch_step-Stepped now late s (reading [] (own, none)) u named aim left = stay s waiting u tt tt
    punch_step-Stepped now late s (reading [] (own, some peer)) u named (below, before) left =
        stay s (listing (dialing peer.addr)) u
          (λ a e.
            subst T
              (ap (λ o. elim o [ dialing b ↦ b | no_nonce ↦ a | not_written x ↦ a | timed_out ↦ a ])
                e)
              (before peer refl))
          tt
    punch_step-Stepped now late s (reading (key ∷ rest) found) u named aim left =
        read_step now late s key rest found u named aim
    punch_step-Stepped now late s (listing end) u named aim left =
        rw same_pair (stay s (deleting (list sort_strings s prefix) end) u aim (list-Within s))
    punch_step-Stepped now late s (deleting [] end) u named aim left =
        stay s (returned end) u aim left
    punch_step-Stepped now late s (deleting (key ∷ rest) end) u named aim left =
        delete_step s key rest end u aim left
    punch_step-Stepped now late s (returned end) u named aim left = stay s (returned end) u aim left
