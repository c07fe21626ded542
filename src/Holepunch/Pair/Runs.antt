-- ===== src/Holepunch/Pair/Runs.antt =====
-- Two attempts against each other in any order of their steps (holepunch/punch.go).
use Prim.Native.String.{String}
use gossip_mesh.Base.{
  ℕ, ◌≡◌, ◌≢◌, ◌⊎◌, refl, sym, ap, ◌∙◌, Option, none, some, List, [], ◌∷◌, inl, inr, All, Any,
  Bool-cases,
}
use gossip_mesh.Base.Table.{string_key, IsMap}
use gossip_mesh.ObjectStore.{MemoryObjectStore}
use gossip_mesh.Bootstrap.Memory.{memory_ops}
use gossip_mesh.Holepunch.{
  Signal, signal_prefix, PunchEnd, dialing, no_nonce, not_written, timed_out,
}
use gossip_mesh.Holepunch.Signals.{signal_prefix_symmetric}
use gossip_mesh.Holepunch.Pair.{
  Party, Attempts, PunchEvent, PunchPc, writing, waiting, reading, listing, deleting, returned,
  attempts_step, attempts_run,
}
use gossip_mesh.Holepunch.Pair.Points.{
  Addressed, Within, Left, Aims, Aimed, Adds-Addressed, Adds-Left,
}
use gossip_mesh.Holepunch.Pair.Steps.{punch_step-Stepped}

-- The address that an attempt has dialed, once it is behind its poll.
abbrev address_of : PunchEnd → Option String
address_of (dialing a) = some a
address_of no_nonce = none
address_of (not_written e) = none
address_of timed_out = none

abbrev pub dialed : PunchPc → Option String
dialed (listing end) = address_of end
dialed (deleting ks end) = address_of end
dialed (returned end) = address_of end
dialed writing = none
dialed waiting = none
dialed (reading ks found) = none

address_of-Aims :
    (unmarshal : List ℕ → Option Signal) (prefix : String) (T : String → Type 0) (end : PunchEnd)
    → Aims unmarshal prefix T end
    → (address_of end ≡ none) ⊎ ((x : String) × (address_of end ≡ some x) × T x)
address_of-Aims unmarshal prefix T (dialing a) aim = inr (a, refl, aim a refl)
address_of-Aims unmarshal prefix T no_nonce aim = inl refl
address_of-Aims unmarshal prefix T (not_written e) aim = inl refl
address_of-Aims unmarshal prefix T timed_out aim = inl refl

pub dialed-Aimed :
    (unmarshal : List ℕ → Option Signal) (prefix : String) (T : String → Type 0) (pc : PunchPc)
    → Aimed unmarshal prefix T pc
    → (dialed pc ≡ none) ⊎ ((x : String) × (dialed pc ≡ some x) × T x)
dialed-Aimed unmarshal prefix T (listing end) aim = address_of-Aims unmarshal prefix T end aim
dialed-Aimed unmarshal prefix T (deleting ks end) aim = address_of-Aims unmarshal prefix T end aim
dialed-Aimed unmarshal prefix T (returned end) aim = address_of-Aims unmarshal prefix T end aim
dialed-Aimed unmarshal prefix T writing aim = inl refl
dialed-Aimed unmarshal prefix T waiting aim = inl refl
dialed-Aimed unmarshal prefix T (reading ks found) aim = inl refl

-- An attempt has dialed nothing, or this address.
abbrev pub OnlyTo : String → PunchPc → Type 0
OnlyTo addr pc = (dialed pc ≡ none) ⊎ (dialed pc ≡ some addr)

pub Aimed-OnlyTo :
    (unmarshal : List ℕ → Option Signal) (prefix addr : String) (pc : PunchPc)
    → Aimed unmarshal prefix (λ x. x ≡ addr) pc
    → OnlyTo addr pc
Aimed-OnlyTo unmarshal prefix addr pc aim =
    elim (dialed-Aimed unmarshal prefix (λ x. x ≡ addr) pc aim) [
      | inl e ↦ inl e
      | inr (x, e, same) ↦ inr (e ∙ ap some same)
    ]

module _ (sprint_version : ℕ → String) (sort_strings : List String → List String)
    (marshal : Signal → Option (List ℕ)) (unmarshal : List ℕ → Option Signal)
    (sorts : (k : String) (ks : List String)
      → Any (λ j. j ≡ k) ks
      → Any (λ j. j ≡ k) (sort_strings ks))
    (adds_none : (P : String → Type 0) (ks : List String) → All P ks → All P (sort_strings ks))
    (reads_back : (sig : Signal) (bytes : List ℕ)
      → marshal sig ≡ some bytes
      → unmarshal bytes ≡ some sig)
    (a b : Party) (others : a.id ≢ b.id) where
  abbrev prefix : String
  prefix = signal_prefix a.id b.id

  -- Both attempts before their writes, on a store without a signal of either.
  abbrev pub Fresh : Attempts MemoryObjectStore → Type 0
  Fresh r =
      IsMap r.store.objects
      × (r.first ≡ writing)
      × (r.second ≡ writing)
      × Within unmarshal prefix a r.store []
      × Within unmarshal prefix b r.store []

  -- The invariant of the two attempts: the signals in the store have the addresses of their nodes, and so has
  -- what an attempt has found; an attempt that has returned has no signal in the store.
  pub record Inv (r : Attempts MemoryObjectStore) : Type 0 where
    pub unique : IsMap r.store.objects
    pub of_a : Addressed unmarshal prefix (λ x. x ≡ a.addr) a r.store
    pub of_b : Addressed unmarshal prefix (λ x. x ≡ b.addr) b r.store
    pub first_aimed : Aimed unmarshal prefix (λ x. x ≡ b.addr) r.first
    pub second_aimed : Aimed unmarshal prefix (λ x. x ≡ a.addr) r.second
    pub first_left : Left unmarshal prefix a r.store r.first
    pub second_left : Left unmarshal prefix b r.store r.second

  abbrev run : List PunchEvent → Attempts MemoryObjectStore → Attempts MemoryObjectStore
  run es r = attempts_run (memory_ops sprint_version sort_strings) marshal unmarshal a b es r

  attempts_step-Inv :
      (e : PunchEvent) (r : Attempts MemoryObjectStore)
      → Inv r
      → Inv (attempts_step (memory_ops sprint_version sort_strings) marshal unmarshal a b e r)
  unfolding attempts_step
  attempts_step-Inv e r v = elim (Bool-cases e.of_first) [
    | inl here ↦
        let (u, adds, aim, left) =
          punch_step-Stepped sprint_version sort_strings marshal unmarshal sorts adds_none
            reads_back prefix a b refl others (λ x. x ≡ b.addr) e.now e.late r.store r.first
            v.unique v.of_b v.first_aimed v.first_left in
        rw (here, attempts_step)
          (record {
            unique = u;
            of_a =
                Adds-Addressed unmarshal prefix (λ x. x ≡ a.addr) a a r.store _ adds (λ e. refl)
                  v.of_a;
            of_b =
                Adds-Addressed unmarshal prefix (λ x. x ≡ b.addr) a b r.store _ adds
                  (λ e. absurd (others e)) v.of_b;
            first_aimed = aim;
            second_aimed = v.second_aimed;
            first_left = left;
            second_left =
                Adds-Left unmarshal prefix a b r.store _ r.second adds others v.second_left;
          })
    | inr there ↦
        let (u, adds, aim, left) =
          punch_step-Stepped sprint_version sort_strings marshal unmarshal sorts adds_none
            reads_back prefix b a (signal_prefix_symmetric b.id a.id) (λ e. others (sym e))
            (λ x. x ≡ a.addr) e.now e.late r.store r.second v.unique v.of_a v.second_aimed
            v.second_left in
        rw (there, attempts_step)
          (record {
            unique = u;
            of_a =
                Adds-Addressed unmarshal prefix (λ x. x ≡ a.addr) b a r.store _ adds
                  (λ e. absurd (others (sym e))) v.of_a;
            of_b =
                Adds-Addressed unmarshal prefix (λ x. x ≡ b.addr) b b r.store _ adds (λ e. refl)
                  v.of_b;
            first_aimed = v.first_aimed;
            second_aimed = aim;
            first_left =
                Adds-Left unmarshal prefix b a r.store _ r.first adds (λ e. others (sym e))
                  v.first_left;
            second_left = left;
          })
  ]

  pub attempts_run-Inv :
      (es : List PunchEvent) (r : Attempts MemoryObjectStore) → Inv r → Inv (run es r)
  unfolding attempts_run
  attempts_run-Inv [] r v = v
  attempts_run-Inv (e ∷ es) r v = attempts_run-Inv es _ (attempts_step-Inv e r v)

  pub Fresh-Inv : (r : Attempts MemoryObjectStore) → Fresh r → Inv r
  Fresh-Inv r (u, first, second, no_a, no_b) = record {
    unique = u;
    of_a = λ k sig under there from. absurd (no_a k sig under there from);
    of_b = λ k sig under there from. absurd (no_b k sig under there from);
    first_aimed = rw first tt;
    second_aimed = rw second tt;
    first_left = rw first no_a;
    second_left = rw second no_b;
  }

  -- If the two nodes have different ids, the sort keeps the keys and adds none, a signal's bytes read back as
  -- the signal, and the store has no signal of either node under the pair's prefix: however the calls of the
  -- two attempts interleave, the first one dials no address but the second one's, and the second one none but
  -- the first one's.
  pub attempts_run-OnlyTo :
      (es : List PunchEvent) (r : Attempts MemoryObjectStore)
      → Fresh r
      → OnlyTo b.addr (run es r).first × OnlyTo a.addr (run es r).second
  attempts_run-OnlyTo es r fresh =
      let v = attempts_run-Inv es r (Fresh-Inv r fresh) in
      (
        Aimed-OnlyTo unmarshal prefix b.addr _ v.first_aimed,
        Aimed-OnlyTo unmarshal prefix a.addr _ v.second_aimed,
      )
