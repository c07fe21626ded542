-- ===== src/Holepunch/Pair/Rounds.antt =====
-- A round of the poll that nothing interrupts (holepunch/punch.go, signal.go).
use Prim.Native.String.{String}
use text.Mathlib.Text.{starts_with}
use gossip_mesh.Base.{
  ℕ, ◌≡◌, ◌≢◌, ◌⊎◌, refl, sym, ap, subst, ◌∙◌, true, false, Option, none, some, List, [], ◌∷◌, inl,
  inr, All, Any, Option-cases,
}
use gossip_mesh.Base.Table.{string_key, lookup}
use gossip_mesh.ObjectStore.{MemoryObjectStore, failed, get, list, precondition_failed}
use gossip_mesh.Bootstrap.Discovery.{StoreResult-cases}
use gossip_mesh.Bootstrap.Memory.{memory_ops, Any-imp}
use gossip_mesh.Holepunch.{Signal, signal_prefix, note_signal}
use gossip_mesh.Holepunch.Signals.{signal_prefix_symmetric, note_signal_keeps, note_signal_takes}
use gossip_mesh.Holepunch.Pair.{
  Party, Attempts, PunchEvent, PunchPc, waiting, reading, attempts_step, attempts_run, punch_step,
}
use gossip_mesh.Holepunch.Pair.Points.{Reads}
use gossip_mesh.Holepunch.Pair.Steps.{list-Within}
use gossip_mesh.Holepunch.Pair.Runs.{Fresh, Fresh-Inv, attempts_run-Inv, Aimed-OnlyTo, dialed}

-- A step of the second attempt before its deadline.
abbrev pub tick : ℕ → PunchEvent
tick now = record { of_first = false; now = now; late = false }

-- The steps of the loop of ReadSignals over the keys, and the one behind it.
abbrev pub ticks_over : List String → ℕ → List PunchEvent
ticks_over [] now = tick now ∷ []
ticks_over (k ∷ ks) now = tick now ∷ ticks_over ks now

get_not_refused : (s : MemoryObjectStore) (k : String) → get s k ≢ failed precondition_failed
unfolding get
get_not_refused s k e = elim (Option-cases (lookup k s.objects)) [
  | inl absent ↦ cc (rw (absent, get) at e)
  | inr (x, there) ↦ cc (rw (there, get) at e)
]

module _ (sprint_version : ℕ → String) (sort_strings : List String → List String)
    (marshal : Signal → Option (List ℕ)) (unmarshal : List ℕ → Option Signal) (a b : Party)
    (others : a.id ≢ b.id) where
  abbrev run : List PunchEvent → Attempts MemoryObjectStore → Attempts MemoryObjectStore
  run es r = attempts_run (memory_ops sprint_version sort_strings) marshal unmarshal a b es r

  -- The key has a signal of the first node.
  abbrev Sent : MemoryObjectStore → String → Type 0
  Sent s k = (sig : Signal) × Reads unmarshal s k sig × (sig.node_id ≡ a.id)

  abbrev Has : Option Signal → Type 0
  Has o = (x : Signal) × (o ≡ some x) × (x.node_id ≡ a.id)

  abbrev Finds : Attempts MemoryObjectStore → Type 0
  Finds r = (x : String) × (dialed r.second ≡ some x)

  -- A step of the second attempt that leaves the store as it is.
  step-Finds :
      (pc pc' : PunchPc) (now : ℕ) (rest : List PunchEvent) (r : Attempts MemoryObjectStore)
      → punch_step
          (memory_ops sprint_version sort_strings)
          marshal
          unmarshal
          b
          a.id
          now
          false
          r.store
          pc
        ≡ (r.store, pc')
      → Finds (run rest (record r { second = pc' }))
      → Finds (run (tick now ∷ rest) (record r { second = pc }))
  unfolding attempts_run attempts_step
  step-Finds pc pc' now rest r e finds =
      subst
        (λ (x : MemoryObjectStore × PunchPc).
          Finds (run rest (record { store = x.0; first = r.first; second = x.1 })))
        (sym e) finds

  reading-Finds :
      (ks : List String) (found : Option Signal × Option Signal) (now : ℕ)
      (r : Attempts MemoryObjectStore)
      → Has found.1 ⊎ Any (Sent r.store) ks
      → Finds (run (ticks_over ks now) (record r { second = reading ks found }))
  unfolding attempts_run attempts_step punch_step
  reading-Finds [] found now r (inr there) = elim there [ ]
  reading-Finds [] (own, none) now r (inl (x, e, _)) = cc e
  reading-Finds [] (own, some y) now r (inl _) = (y.addr, refl)
  reading-Finds (k ∷ ks) found now r h =
      let next = λ (f : Option Signal × Option Signal).
        step-Finds (reading (k ∷ ks) found) (reading ks f) now (ticks_over ks now) r in
      elim (StoreResult-cases (get r.store k)) [
        | inl (inr refused) ↦ absurd (get_not_refused r.store k refused)
        | inl (inl gone) ↦ next found (rw (gone, punch_step) refl) (
            reading-Finds ks found now r (elim h [
              | inl has ↦ inl has
              | inr (inl (sig, (bytes, info, there, _), _)) ↦ cc (gone, there)
              | inr (inr later) ↦ inr later
            ]))
        | inr ((bytes, info), got) ↦ elim (Option-cases (unmarshal bytes)) [
          | inl bad ↦ next found (rw (got, punch_step, bad) refl) (
              reading-Finds ks found now r (elim h [
                | inl has ↦ inl has
                | inr (inl (sig, (bytes', info', there, read), _)) ↦ cc (got, there, bad, read)
                | inr (inr later) ↦ inr later
              ]))
          | inr (x, good) ↦ next (noted x found) (rw (got, punch_step, good) refl) (
              reading-Finds ks (noted x found) now r (elim h [
                | inl has ↦ inl (keeps x found has)
                | inr (inl (sig, (bytes', info', there, read), from)) ↦
                    inl (takes x found (cc (got, there, good, read, from)))
                | inr (inr later) ↦ inr later
              ]))
        ]
      ]
    where
      noted : Signal → Option Signal × Option Signal → Option Signal × Option Signal
      noted = note_signal (memory_ops sprint_version sort_strings) marshal unmarshal b.id a.id

      keeps : (x : Signal) (f : Option Signal × Option Signal) → Has f.1 → Has (noted x f).1
      keeps =
          note_signal_keeps (memory_ops sprint_version sort_strings) marshal unmarshal b.id a.id
            others

      takes :
          (x : Signal) (f : Option Signal × Option Signal) → x.node_id ≡ a.id → Has (noted x f).1
      takes =
          note_signal_takes (memory_ops sprint_version sort_strings) marshal unmarshal b.id a.id
            others

  round-Finds :
      (now : ℕ) (r : Attempts MemoryObjectStore)
      → r.second ≡ waiting
      → let ks = list sort_strings r.store (signal_prefix b.id a.id) in
        Any (Sent r.store) ks → Finds (run (tick now ∷ ticks_over ks now) r)
  unfolding punch_step
  round-Finds now r waits there =
      let ks = list sort_strings r.store (signal_prefix b.id a.id) in
      subst (λ pc. Finds (run (tick now ∷ ticks_over ks now) (record r { second = pc })))
        (sym waits)
        (step-Finds waiting (reading ks (none, none)) now (ticks_over ks now) r refl
          (reading-Finds ks (none, none) now r (inr there)))

  module _
      (sorts : (k : String) (ks : List String)
        → Any (λ j. j ≡ k) ks
        → Any (λ j. j ≡ k) (sort_strings ks))
      (adds_none : (P : String → Type 0) (ks : List String) → All P ks → All P (sort_strings ks))
      (reads_back : (sig : Signal) (bytes : List ℕ)
        → marshal sig ≡ some bytes
        → unmarshal bytes ≡ some sig) where
    -- Under the conditions of the two attempts: whenever the second one is at its select and the store has a
    -- signal of the first node, a round of its poll before the deadline, of which no step of the first one
    -- comes in between, ends with a dial to the first one's address.
    pub attempts_run_dials :
        (es : List PunchEvent) (r : Attempts MemoryObjectStore) (now : ℕ) (k : String)
        (sig : Signal)
        → Fresh sprint_version sort_strings marshal unmarshal sorts adds_none reads_back a b others
            r
        → (run es r).second ≡ waiting
        → starts_with k (signal_prefix a.id b.id) ≡ true
        → Reads unmarshal (run es r).store k sig
        → sig.node_id ≡ a.id
        → let round =
            tick now
            ∷ ticks_over (list sort_strings (run es r).store (signal_prefix b.id a.id)) now in
          dialed (run round (run es r)).second ≡ some a.addr
    attempts_run_dials es r now k sig fresh waits under there from =
        let here = run es r in
        let prefix : String = signal_prefix b.id a.id in
        let ks : List String = list sort_strings here.store prefix in
        let under' : starts_with k prefix ≡ true =
          ap (starts_with k) (signal_prefix_symmetric b.id a.id) ∙ under in
        let listed : Any (λ j. j ≡ k) ks =
          list-Within sprint_version sort_strings marshal unmarshal sorts adds_none reads_back
            prefix a b (signal_prefix_symmetric a.id b.id) others (λ x. ⊥) here.store k sig under'
            there from in
        let (x, found) = round-Finds now here waits (
          Any-imp (λ j. j ≡ k) (Sent here.store) ks (λ j same. (sig, rw same there, from))
            listed) in
        let v =
          attempts_run-Inv sprint_version sort_strings marshal unmarshal sorts adds_none reads_back
            a b others (tick now ∷ ticks_over ks now) here
            (attempts_run-Inv sprint_version sort_strings marshal unmarshal sorts adds_none
              reads_back a b others es r
              (Fresh-Inv sprint_version sort_strings marshal unmarshal sorts adds_none reads_back a
                b others r fresh)) in
        elim (Aimed-OnlyTo unmarshal (signal_prefix a.id b.id) a.addr
          (run (tick now ∷ ticks_over ks now) here).second v.second_aimed) [
            | inl never ↦ cc (never, found)
            | inr e ↦ e
          ]
