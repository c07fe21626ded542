-- ===== src/Holepunch/Pair/Starved.antt =====
-- What is left for the second attempt when the first one has returned (holepunch/punch.go).
use Prim.Native.String.{String}
use gossip_mesh.Base.{
  ℕ, ◌≡◌, ◌≢◌, ◌⊎◌, refl, sym, subst, Option, none, some, List, [], ◌∷◌, inl, inr, All, Any,
  Bool-cases,
}
use gossip_mesh.Base.Table.{string_key, IsMap}
use gossip_mesh.ObjectStore.{MemoryObjectStore}
use gossip_mesh.Bootstrap.Memory.{memory_ops}
use gossip_mesh.Holepunch.{Signal, signal_prefix, PunchEnd}
use gossip_mesh.Holepunch.Signals.{signal_prefix_symmetric}
use gossip_mesh.Holepunch.Pair.{
  Party, Attempts, PunchEvent, writing, waiting, returned, attempts_step, attempts_run, punch_step,
}
use gossip_mesh.Holepunch.Pair.Points.{Addressed, Within, Left, Aimed, Adds-Addressed}
use gossip_mesh.Holepunch.Pair.Steps.{punch_step-Stepped}
use gossip_mesh.Holepunch.Pair.Runs.{dialed, dialed-Aimed, Fresh, Fresh-Inv, attempts_run-Inv}

module _ (sprint_version : ℕ → String) (sort_strings : List String → List String)
    (marshal : Signal → Option (List ℕ)) (unmarshal : List ℕ → Option Signal)
    (sorts : (k : String) (ks : List String)
      → Any (λ j. j ≡ k) ks
      → Any (λ j. j ≡ k) (sort_strings ks))
    (adds_none : (P : String → Type 0) (ks : List String) → All P ks → All P (sort_strings ks))
    (reads_back : (sig : Signal) (bytes : List ℕ)
      → marshal sig ≡ some bytes
      → unmarshal bytes ≡ some sig)
    (a b : Party) (others : a.id ≢ b.id) where
  abbrev prefix : String
  prefix = signal_prefix a.id b.id

  abbrev run : List PunchEvent → Attempts MemoryObjectStore → Attempts MemoryObjectStore
  run es r = attempts_run (memory_ops sprint_version sort_strings) marshal unmarshal a b es r

  -- The first attempt has returned, the store has no signal of its node, and the second one has found none.
  record Starved (end : PunchEnd) (r : Attempts MemoryObjectStore) : Type 0 where
    over : r.first ≡ returned end
    map_left : IsMap r.store.objects
    gone : Addressed unmarshal prefix (λ x. ⊥) a r.store
    unfound : Aimed unmarshal prefix (λ x. ⊥) r.second
    own_left : Left unmarshal prefix b r.store r.second

  attempts_step-Starved :
      (end : PunchEnd) (e : PunchEvent) (r : Attempts MemoryObjectStore)
      → Starved end r
      → Starved end
          (attempts_step (memory_ops sprint_version sort_strings) marshal unmarshal a b e r)
  unfolding attempts_step punch_step
  attempts_step-Starved end e r v = elim (Bool-cases e.of_first) [
    | inl here ↦
        rw (here, attempts_step, v.over)
          (record {
            over = refl;
            map_left = v.map_left;
            gone = v.gone;
            unfound = v.unfound;
            own_left = v.own_left;
          })
    | inr there ↦
        let (u, adds, aim, left) =
          punch_step-Stepped sprint_version sort_strings marshal unmarshal sorts adds_none
            reads_back prefix b a (signal_prefix_symmetric b.id a.id) (λ e. others (sym e)) (λ x. ⊥)
            e.now e.late r.store r.second v.map_left v.gone v.unfound v.own_left in
        rw (there, attempts_step)
          (record {
            over = v.over;
            map_left = u;
            gone =
                Adds-Addressed unmarshal prefix (λ x. ⊥) b a r.store _ adds
                  (λ e. absurd (others (sym e))) v.gone;
            unfound = aim;
            own_left = left;
          })
  ]

  attempts_run-Starved :
      (end : PunchEnd) (es : List PunchEvent) (r : Attempts MemoryObjectStore)
      → Starved end r
      → Starved end (run es r)
  unfolding attempts_run
  attempts_run-Starved end [] r v = v
  attempts_run-Starved end (e ∷ es) r v =
      attempts_run-Starved end es _ (attempts_step-Starved end e r v)

  -- Under the same conditions: once the first attempt has returned, however it ended, the second one, if it is
  -- before its write or at its select then, never dials, whatever steps follow. The first one's cleanup has
  -- taken its own signal away.
  pub attempts_run_starved :
      (es later : List PunchEvent) (r : Attempts MemoryObjectStore) (end : PunchEnd)
      → Fresh sprint_version sort_strings marshal unmarshal sorts adds_none reads_back a b others r
      → (run es r).first ≡ returned end
      → ((run es r).second ≡ writing) ⊎ ((run es r).second ≡ waiting)
      → dialed (run later (run es r)).second ≡ none
  attempts_run_starved es later r end fresh over outside =
      let v =
        attempts_run-Inv sprint_version sort_strings marshal unmarshal sorts adds_none reads_back a
          b others es r
          (Fresh-Inv sprint_version sort_strings marshal unmarshal sorts adds_none reads_back a b
            others r fresh) in
      let gone : Within unmarshal prefix a (run es r).store [] =
        subst (Left unmarshal prefix a (run es r).store) over v.first_left in
      let unfound : Aimed unmarshal prefix (λ y. ⊥) (run es r).second = elim outside [
        | inl e ↦ rw e tt
        | inr e ↦ rw e tt
      ] in
      let starved = attempts_run-Starved end later (run es r) (record {
        over = over;
        map_left = v.unique;
        gone = λ k sig under there from. absurd (gone k sig under there from);
        unfound = unfound;
        own_left = v.second_left;
      }) in
      elim (dialed-Aimed unmarshal prefix (λ y. ⊥) _ starved.unfound) [
        | inl e ↦ e
        | inr (x, e, never) ↦ elim never [ ]
      ]
