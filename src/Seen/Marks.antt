-- ===== src/Seen/Marks.antt =====
-- The tracker's invariant and its high-water marks.
use gossip_mesh.Base.{
  ℕ, ◌<◌, ◌≤◌, ◌≡◌, refl, arith, true, false, List, [], ◌∷◌, ◌++◌, ltb, ◌==◌, if◌then◌else◌, ◌&&◌,
  inl, inr, lt→ltb, Bool-cases, Any, All,
}
use gossip_mesh.Seen.{
  empty, SeenTracker, store, is_active, mark_active, should_process, current_seq, marks_of,
  high_water_marks, set_topic_seq,
}

-- Every topic with a non-zero mark is in the active set, so no snapshot misses it.
abbrev pub IsTracked : SeenTracker → Type 0
IsTracked s = (t : ℕ) → 0 < s.slot_seqs t → is_active t s.active_slots ≡ true

pub is_active-append_self : (t : ℕ) (us : List ℕ) → is_active t (us ++ t ∷ []) ≡ true
unfolding is_active
is_active-append_self t [] = ground arith
is_active-append_self t (u ∷ us) = ground (arith, is_active-append_self t us)

pub is_active-append :
    (t u : ℕ) (us : List ℕ) → is_active t us ≡ true → is_active t (us ++ u ∷ []) ≡ true
unfolding is_active
is_active-append t u [] h = cc
is_active-append t u (v ∷ us) h = ground (arith, is_active-append t u us)

mark_active_self : (s : SeenTracker) (t : ℕ) → is_active t (mark_active s t).active_slots ≡ true
unfolding mark_active
mark_active_self s t = ground (arith, is_active-append_self t s.active_slots)

mark_active_keeps :
    (s : SeenTracker) (t u : ℕ)
    → is_active u s.active_slots ≡ true
    → is_active u (mark_active s t).active_slots ≡ true
unfolding mark_active
mark_active_keeps s t u h = ground (arith, is_active-append u t s.active_slots)

mark_active-slot_seqs : (s : SeenTracker) (t : ℕ) → (mark_active s t).slot_seqs ≡ s.slot_seqs
unfolding mark_active
mark_active-slot_seqs s t = ground arith

-- A call accepts exactly the sequence numbers above the topic's mark, which becomes the accepted
-- number; a refused call moves no mark, and no call moves that of another topic.
pub should_process_lem :
    (s : SeenTracker) (t seq u : ℕ)
    → ((should_process s t seq).1 ≡ ltb (s.slot_seqs t) seq)
      × ((should_process s t seq).0.slot_seqs u
          ≡ (if (u == t) && ltb (s.slot_seqs t) seq then seq else s.slot_seqs u))
unfolding should_process
should_process_lem s t seq u = (ground arith, ground arith)

pub should_process_refused :
    (s : SeenTracker) (t seq : ℕ) → seq ≤ s.slot_seqs t → should_process s t seq ≡ (s, false)
unfolding should_process
should_process_refused s t seq h = ground arith

-- A call keeps every topic with a non-zero mark in the active set, if it was so before.
pub should_process-IsTracked :
    (s : SeenTracker) (t seq : ℕ) → IsTracked s → IsTracked (should_process s t seq).0
unfolding should_process
should_process-IsTracked s t seq h u p = ground (
  arith,
  h u,
  mark_active_self (record s { slot_seqs = store s.slot_seqs t seq }) t,
  mark_active_keeps (record s { slot_seqs = store s.slot_seqs t seq }) t u,
  mark_active-slot_seqs (record s { slot_seqs = store s.slot_seqs t seq }) t,
)

pub empty-IsTracked : IsTracked empty
unfolding empty
empty-IsTracked t p = absurd (omega (arith, p))

pub set_topic_seq-IsTracked :
    (s : SeenTracker) (t seq : ℕ) → IsTracked s → IsTracked (set_topic_seq s t seq)
unfolding set_topic_seq
set_topic_seq-IsTracked s t seq h u p = ground (
  arith,
  h u,
  mark_active_self (record s { slot_seqs = store s.slot_seqs t seq }) t,
  mark_active_keeps (record s { slot_seqs = store s.slot_seqs t seq }) t u,
  mark_active-slot_seqs (record s { slot_seqs = store s.slot_seqs t seq }) t,
)

marks_of_complete :
    (f : ℕ → ℕ) (t : ℕ) (ts : List ℕ)
    → is_active t ts ≡ true
    → 0 < f t
    → Any (λ m. (m.topic ≡ t) × (m.seq ≡ f t)) (marks_of f ts)
unfolding marks_of is_active
marks_of_complete f t [] h p = cc
marks_of_complete f t (u ∷ ts) h p = elim (Bool-cases (u == t)) [
  | inl e ↦ let same : u ≡ t = ground arith in rw (same, lt→ltb 0 (f t) p) (inl (refl, refl))
  | inr e ↦ elim (Bool-cases (ltb 0 (f u))) [
    | inl k ↦ rw k (inr (marks_of_complete f t ts (ground arith) p))
    | inr k ↦ rw k (marks_of_complete f t ts (ground arith) p)
  ]
]

marks_of_sound :
    (f : ℕ → ℕ) (ts : List ℕ) → All (λ m. (m.seq ≡ f m.topic) × (0 < m.seq)) (marks_of f ts)
unfolding marks_of
marks_of_sound f [] = tt
marks_of_sound f (t ∷ ts) = ground (arith, marks_of_sound f ts)

-- The snapshot of a tracker in which every marked topic is active lists a topic with a non-zero mark,
-- with that mark, and lists nothing but non-zero marks that the tracker has.
pub high_water_marks_lem :
    (s : SeenTracker) (t : ℕ)
    → IsTracked s
    → 0 < current_seq s t
    → Any (λ m. (m.topic ≡ t) × (m.seq ≡ current_seq s t)) (high_water_marks s)
      × All (λ m. (m.seq ≡ current_seq s m.topic) × (0 < m.seq)) (high_water_marks s)
unfolding high_water_marks current_seq
high_water_marks_lem s t h p = (
  marks_of_complete s.slot_seqs t s.active_slots (h t p) p,
  marks_of_sound s.slot_seqs s.active_slots,
)

-- After a call the topic's mark is at or above the call's number.
pub should_process-mark :
    (s : SeenTracker) (t seq : ℕ) → seq ≤ (should_process s t seq).0.slot_seqs t
unfolding should_process
should_process-mark s t seq = ground arith
