-- ===== src/Holepunch/Pair/Write.antt =====
-- The write of an attempt over the store in memory (holepunch/punch.go).
use Prim.Native.String.{String}
use gossip_mesh.Base.{
  ℕ, ◌≡◌, ◌≢◌, ◌⊎◌, refl, sym, ap, subst, ◌∙◌, Bool, Option, none, some, List, [], inl, inr, All,
  Any, Option-cases,
}
use gossip_mesh.Base.Table.{string_key, IsMap, insert-IsMap}
use gossip_mesh.ObjectStore.{
  MemoryObjectStore, ObjectInfo, StoreResult, StoreError, done, failed, put,
}
use gossip_mesh.ObjectStore.Conditional.{put-insert, put_failed}
use gossip_mesh.Bootstrap.Memory.{memory_ops}
use gossip_mesh.Holepunch.{
  Signal, SignalError, SignalResult, success, failure, put_signal, marshal_signal, signal_prefix,
  signal_key, write_under, write_signal_for_peer, not_written,
}
use gossip_mesh.Holepunch.Pair.{Party, PunchPc, writing, waiting, returned, signal_of, punch_step}
use gossip_mesh.Holepunch.Pair.Points.{Adds, Within, Left, Aimed, Reads-put}

put_result :
    (sprint_version : ℕ → String) (s : MemoryObjectStore) (key : String) (bytes : List ℕ)
    → ((s' : MemoryObjectStore) × (info : ObjectInfo) × (put sprint_version s key bytes []
          ≡ (s', done info)))
      ⊎ ((why : StoreError) × (put sprint_version s key bytes [] ≡ (s, failed why)))
put_result sprint_version s key bytes = split (put sprint_version s key bytes []) refl
  where
    split :
        (r : MemoryObjectStore × StoreResult ObjectInfo)
        → put sprint_version s key bytes [] ≡ r
        → ((s' : MemoryObjectStore) × (info : ObjectInfo) × (put sprint_version s key bytes []
              ≡ (s', done info)))
          ⊎ ((why : StoreError) × (put sprint_version s key bytes [] ≡ (s, failed why)))
    split (s', done info) e = inl (s', info, e)
    split (s', failed why) e =
        inr
          (why, e ∙ ap (λ x. (x, failed why)) (put_failed sprint_version s key bytes [] s' why e).0)

module _ (sprint_version : ℕ → String) (sort_strings : List String → List String)
    (marshal : Signal → Option (List ℕ)) (unmarshal : List ℕ → Option Signal)
    (sorts : (k : String) (ks : List String)
      → Any (λ j. j ≡ k) ks
      → Any (λ j. j ≡ k) (sort_strings ks))
    (adds_none : (P : String → Type 0) (ks : List String) → All P ks → All P (sort_strings ks))
    (reads_back : (sig : Signal) (bytes : List ℕ)
      → marshal sig ≡ some bytes
      → unmarshal bytes ≡ some sig) where
  abbrev step :
      Party → String → ℕ → Bool → MemoryObjectStore → PunchPc → MemoryObjectStore × PunchPc
  step = punch_step (memory_ops sprint_version sort_strings) marshal unmarshal

  module _ (prefix : String) (p q : Party) (same_pair : signal_prefix p.id q.id ≡ prefix)
      (others : p.id ≢ q.id) (T : String → Type 0) where
    -- What a step keeps, whoever takes it, and what it does to the signals.
    abbrev pub Stepped : MemoryObjectStore → MemoryObjectStore × PunchPc → Type 0
    Stepped s r =
        IsMap r.0.objects
        × Adds unmarshal p s r.0
        × Aimed unmarshal prefix T r.1
        × Left unmarshal prefix p r.0 r.1

    pub still :
        (s : MemoryObjectStore) (pc : PunchPc)
        → IsMap s.objects
        → Aimed unmarshal prefix T pc
        → Left unmarshal prefix p s pc
        → Stepped s (s, pc)
    still s pc u aim left = (u, λ k sig r. inl r, aim, left)

    abbrev write : ℕ → MemoryObjectStore → MemoryObjectStore × SignalResult (Unit {0})
    write now s =
        write_signal_for_peer (memory_ops sprint_version sort_strings) marshal unmarshal now s p.id
          q.id (signal_of p)

    -- A write stores the signal, or changes nothing.
    write_result :
        (now : ℕ) (s : MemoryObjectStore)
        → ((s' : MemoryObjectStore) × (bytes : List ℕ) × (info : ObjectInfo) × (put sprint_version s
                (signal_key p.id q.id p.id)
                bytes
                []
              ≡ (s', done info))
            × (marshal (record (signal_of p) { time = now }) ≡ some bytes)
            × (write now s ≡ (s', success tt)))
          ⊎ ((e : SignalError) × (write now s ≡ (s, failure e)))
    unfolding write_under
    write_result now s = elim (Option-cases (marshal (record (signal_of p) { time = now }))) [
      | inl bad ↦ inr (marshal_signal, rw (bad, write_under) refl)
      | inr (bytes, good) ↦ elim (put_result sprint_version s (signal_key p.id q.id p.id) bytes) [
        | inl (s', info, stored) ↦
            inl (s', bytes, info, stored, good, rw (good, write_under, stored) refl)
        | inr (why, refused) ↦ inr (put_signal why, rw (good, write_under, refused) refl)
      ]
    ]

    pub write_step :
        (now : ℕ) (late : Bool) (s : MemoryObjectStore)
        → IsMap s.objects
        → Within unmarshal prefix p s []
        → Stepped s (step p q.id now late s writing)
    unfolding punch_step
    write_step now late s u left = elim (write_result now s) [
      | inr (x, e) ↦
          subst (Stepped s)
            (sym (
              ap
                (λ r.
                  (r.0, elim r.1 [ success _ ↦ waiting | failure e ↦ returned (not_written e) ]))
                e))
            (still s (returned (not_written x)) u (λ a e. cc e) left)
      | inl (s', bytes, info, stored, good, e) ↦
          subst (Stepped s)
            (sym (
              ap
                (λ r.
                  (r.0, elim r.1 [ success _ ↦ waiting | failure e ↦ returned (not_written e) ]))
                e))
            (
              rw (put-insert sprint_version s (signal_key p.id q.id p.id) bytes [] s' info stored)
                  (insert-IsMap (signal_key p.id q.id p.id) _ s.objects u),
              λ k sig r.
                  elim (Reads-put unmarshal sprint_version s s' (signal_key p.id q.id p.id) k bytes
                    info sig stored r) [
                      | inl before ↦ inl before
                      | inr mine ↦
                          let same : some sig ≡ some (record (signal_of p) { time = now }) =
                            sym mine ∙ reads_back _ bytes good in
                          inr (
                            ap (λ o. elim o [ none ↦ sig.node_id | some x ↦ x.node_id ]) same,
                            ap (λ o. elim o [ none ↦ sig.addr | some x ↦ x.addr ]) same,
                          )
                    ],
              tt,
              tt,
            )
    ]
