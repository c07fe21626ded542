-- ===== src/Seen/Race.antt =====
-- Concurrent callers of ShouldProcess: each thread is at one point of the compare-and-swap loop, and a
-- schedule says which thread makes the next atomic step.
use gossip_mesh.Base.{
  ℕ, ◌<◌, ◌≤◌, ◌≡◌, ◌≢◌, refl, sym, subst, ap, ◌∙◌, arith, Bool, true, false, List, [], ◌∷◌, leb,
  ==_iff, ==_ne, ◌==◌, if◌then◌else◌, ◌⊎◌, inl, inr, Bool-cases,
}
use gossip_mesh.Seen.{TopicSeq, SeenTracker, store, is_active, mark_active}

-- Before the load; after it, with what was loaded; in markActive, before and after its first look
-- at the set; returned.
pub data Pc : Type 0 where
  starting : Pc
  loaded : ℕ → Pc
  marking inserting : Pc
  returned : Bool → Pc

-- The next atomic step of one call.
unfoldable pub thread_step : TopicSeq → SeenTracker → Pc → SeenTracker × Pc
unfolding mark_active
thread_step c s starting =
    if leb c.seq (s.slot_seqs c.topic)
    then (s, returned false)
    else (s, loaded (s.slot_seqs c.topic))
thread_step c s (loaded old) =
    if s.slot_seqs c.topic == old
    then (
      record s { slot_seqs = store s.slot_seqs c.topic c.seq },
      if old == 0 then marking else returned true,
    )
    else (s, starting)
thread_step c s marking =
    if is_active c.topic s.active_slots then (s, returned true) else (s, inserting)
thread_step c s inserting = (mark_active s c.topic, returned true)
thread_step c s (returned b) = (s, returned b)

pub record Race : Type 0 where
  pub tracker : SeenTracker
  pub pcs : ℕ → Pc

-- Thread `i` runs the call `calls i`.
unfoldable pub race_step : (ℕ → TopicSeq) → Race → ℕ → Race
race_step calls r i =
    let (s, pc) = thread_step (calls i) r.tracker (r.pcs i) in
    record { tracker = s; pcs = λ j. if j == i then pc else r.pcs j }

unfoldable pub race_run : (ℕ → TopicSeq) → Race → List ℕ → Race
race_run calls r [] = r
race_run calls r (i ∷ is) = race_run calls (race_step calls r i) is

unfoldable pub race_start : SeenTracker → Race
race_start s = record { tracker = s; pcs = λ i. starting }

-- The call's swap has succeeded.
abbrev pub Accepted : Pc → Type 0
Accepted starting = ⊥
Accepted (loaded old) = ⊥
Accepted marking = Unit
Accepted inserting = Unit
Accepted (returned b) = b ≡ true

abbrev pub Point : TopicSeq → SeenTracker → Pc → Type 0
Point c s starting = Unit
Point c s (loaded old) = old < c.seq
Point c s marking = c.seq ≤ s.slot_seqs c.topic
Point c s inserting = c.seq ≤ s.slot_seqs c.topic
Point c s (returned b) = c.seq ≤ s.slot_seqs c.topic

pub thread_step_mono :
    (c : TopicSeq) (s : SeenTracker) (pc : Pc) (t : ℕ)
    → Point c s pc
    → s.slot_seqs t ≤ (thread_step c s pc).0.slot_seqs t
unfolding thread_step
thread_step_mono c s starting t p = ground arith
thread_step_mono c s (loaded old) t p = ground arith
thread_step_mono c s marking t p = ground arith
thread_step_mono c s inserting t p = ground arith
thread_step_mono c s (returned b) t p = ground arith

Point-mono :
    (c : TopicSeq) (s s' : SeenTracker) (pc : Pc)
    → s.slot_seqs c.topic ≤ s'.slot_seqs c.topic
    → Point c s pc
    → Point c s' pc
Point-mono c s s' starting m p = tt
Point-mono c s s' (loaded old) m p = p
Point-mono c s s' marking m p = omega arith
Point-mono c s s' inserting m p = omega arith
Point-mono c s s' (returned b) m p = omega arith

thread_step-Point :
    (c : TopicSeq) (s : SeenTracker) (pc : Pc)
    → Point c s pc
    → Point c (thread_step c s pc).0 (thread_step c s pc).1
unfolding thread_step
thread_step-Point c s starting p = ground arith
thread_step-Point c s (loaded old) p = ground arith
thread_step-Point c s marking p = ground arith
thread_step-Point c s inserting p = ground arith
thread_step-Point c s (returned b) p = ground arith

-- A step that newly accepts had the mark below its number.
thread_step-Accepted :
    (c : TopicSeq) (s : SeenTracker) (pc : Pc)
    → Point c s pc
    → Accepted (thread_step c s pc).1
    → Accepted pc ⊎ (s.slot_seqs c.topic < c.seq)
unfolding thread_step
thread_step-Accepted c s starting p a = ground arith
thread_step-Accepted c s (loaded old) p a = ground arith
thread_step-Accepted c s marking p a = inl tt
thread_step-Accepted c s inserting p a = inl tt
thread_step-Accepted c s (returned b) p a = inl a

-- Every thread is at a sound point, and two accepted calls of one topic differ in their numbers.
record Inv (calls : ℕ → TopicSeq) (r : Race) : Type 0 where
  points : (i : ℕ) → Point (calls i) r.tracker (r.pcs i)
  distinct :
      (i j : ℕ)
      → i ≢ j
      → Accepted (r.pcs i)
      → Accepted (r.pcs j)
      → (calls i).topic ≡ (calls j).topic
      → (calls i).seq ≢ (calls j).seq

-- An accepted call's number is at or below its topic's mark.
Accepted-le :
    (c : TopicSeq) (s : SeenTracker) (pc : Pc)
    → Point c s pc
    → Accepted pc
    → c.seq ≤ s.slot_seqs c.topic
Accepted-le c s starting p a = elim a [ ]
Accepted-le c s (loaded old) p a = elim a [ ]
Accepted-le c s marking p a = p
Accepted-le c s inserting p a = p
Accepted-le c s (returned b) p a = p

module _ (calls : ℕ → TopicSeq) where
  abbrev moved : Race → ℕ → SeenTracker × Pc
  moved r i = thread_step (calls i) r.tracker (r.pcs i)

  step-pcs :
      (r : Race) (i j : ℕ)
      → (race_step calls r i).pcs j ≡ (if j == i then (moved r i).1 else r.pcs j)
  unfolding race_step
  step-pcs r i j = refl

  step-points :
      (r : Race) (i j : ℕ)
      → Inv calls r
      → Point (calls j) (moved r i).0 ((race_step calls r i).pcs j)
  unfolding race_step
  step-points r i j v = elim (Bool-cases (j == i)) [
    | inl e ↦ rw e (
        subst (λ k. Point (calls k) (moved r i).0 (moved r i).1) (sym ((==_iff j i).0 e))
          (thread_step-Point (calls i) r.tracker (r.pcs i) (v.points i)))
    | inr e ↦ rw e (
        Point-mono (calls j) r.tracker (moved r i).0 (r.pcs j)
          (thread_step_mono (calls i) r.tracker (r.pcs i) (calls j).topic (v.points i))
          (v.points j))
  ]

  -- The stepping thread against another one.
  step_against :
      (r : Race) (i j : ℕ)
      → Inv calls r
      → i ≢ j
      → Accepted (moved r i).1
      → Accepted (r.pcs j)
      → (calls i).topic ≡ (calls j).topic
      → (calls i).seq ≢ (calls j).seq
  step_against r i j v ne a b same =
      elim (thread_step-Accepted (calls i) r.tracker (r.pcs i) (v.points i) a) [
        | inl old ↦ v.distinct i j ne old b same
        | inr below ↦
            let le : (calls j).seq ≤ r.tracker.slot_seqs (calls j).topic =
              Accepted-le (calls j) r.tracker (r.pcs j) (v.points j) b in
            let lt : r.tracker.slot_seqs (calls j).topic < (calls i).seq =
              subst (λ t. r.tracker.slot_seqs t < (calls i).seq) same below in
            omega arith
      ]

  -- What a thread's point is after the step, by whether it is the stepping thread.
  step_cases :
      (r : Race) (i j : ℕ)
      → Accepted ((race_step calls r i).pcs j)
      → ((j ≡ i) × Accepted (moved r i).1) ⊎ ((j ≢ i) × Accepted (r.pcs j))
  unfolding race_step
  step_cases r i j a = elim (Bool-cases (j == i)) [
    | inl e ↦ inl ((==_iff j i).0 e, rw e at a)
    | inr e ↦ inr (==_ne j i e, rw e at a)
  ]

  step-distinct :
      (r : Race) (i j k : ℕ)
      → Inv calls r
      → j ≢ k
      → Accepted ((race_step calls r i).pcs j)
      → Accepted ((race_step calls r i).pcs k)
      → (calls j).topic ≡ (calls k).topic
      → (calls j).seq ≢ (calls k).seq
  step-distinct r i j k v ne a b same = elim (step_cases r i j a) [
    | inl (ji, am) ↦ elim (step_cases r i k b) [
      | inl (ki, _) ↦ absurd (ne (ji ∙ sym ki))
      | inr (ki, bo) ↦ rw ji (step_against r i k v (λ e. ki (sym e)) am bo (rw ji at same))
    ]
    | inr (ji, ao) ↦ elim (step_cases r i k b) [
      | inl (ki, bm) ↦ λ e.
          step_against r i j v (λ e'. ji (sym e')) bm ao (rw ki at (sym same)) (rw ki at (sym e))
      | inr (ki, bo) ↦ v.distinct j k ne ao bo same
    ]
  ]

  race_step-Inv : (r : Race) (i : ℕ) → Inv calls r → Inv calls (race_step calls r i)
  unfolding race_step
  race_step-Inv r i v = record {
    points = λ j. step-points r i j v;
    distinct = λ j k. step-distinct r i j k v;
  }

  race_run-Inv : (r : Race) (is : List ℕ) → Inv calls r → Inv calls (race_run calls r is)
  unfolding race_run
  race_run-Inv r [] v = v
  race_run-Inv r (i ∷ is) v = race_run-Inv (race_step calls r i) is (race_step-Inv r i v)

  race_start-Inv : (s : SeenTracker) → Inv calls (race_start s)
  unfolding race_start
  race_start-Inv s = record { points = λ i. tt; distinct = λ i j ne a. elim a [ ] }

  -- However the callers interleave, from any tracker: of two calls with one topic and one sequence
  -- number at most one has its swap succeed, so at most one returns true.
  pub race_run_unique :
      (s : SeenTracker) (is : List ℕ) (i j : ℕ)
      → i ≢ j
      → calls i ≡ calls j
      → Accepted ((race_run calls (race_start s) is).pcs i)
      → ¬ Accepted ((race_run calls (race_start s) is).pcs j)
  race_run_unique s is i j ne same a b =
      (race_run-Inv (race_start s) is (race_start-Inv s)).distinct i j ne a b
        (ap (λ c. c.topic) same) (ap (λ c. c.seq) same)
