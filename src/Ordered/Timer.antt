-- ===== src/Ordered/Timer.antt =====
-- gapTimer and skipGap (engine/ordered.go).
use gossip_mesh.Base.{
  ℕ, zero, suc, ◌<◌, ◌≤◌, ◌≡◌, ◌≢◌, refl, ap, ◌∙◌, arith, true, false, Option, none, some, List, [],
  ◌∷◌, length, ltb, Option-cases, ◌+◌, ◌-◌, if◌then◌else◌, inl, inr, ◌⊎◌, ne_==, le→ltb, lt→ltb,
  Bool-cases, u64_mod, ==_iff,
}
use native.Mathlib.Nat.{mod-eq_of_lt}
use gossip_mesh.Base.Table.{lookup, insert, nat_key}
use gossip_mesh.Ordered.{
  Item, Slot, OnGap, next_of, max_uint64, min_pending, skip_gap, wake, gap_timer, receive,
  drain_pending, deliver_and_drain, drain_loop, rearm, buffer, start_timer,
}
use gossip_mesh.Ordered.Drain.{
  Run, Delivered, IsSlot, IsArmed, drain_pending-IsSlot, drain_pending-Run, drain_pending-ne-nil,
}
use gossip_mesh.Ordered.Receive.{receive_expected}

-- The engine's callback: a repair pull that finds the payload feeds it to Receive.
unfoldable pub repair_gap : ℕ → Option (List ℕ) → OnGap
repair_gap max none s seq = ((s, []), false)
repair_gap max (some payload) s seq = (receive max s seq payload, true)

min_pending-le :
    (m k : ℕ) (p : List ℕ) (is : List Item)
    → (min_pending m is ≤ m) × (lookup k is ≡ some p → min_pending m is ≤ k)
unfolding min_pending lookup
min_pending-le m k p [] = (omega arith, λ h. cc)
min_pending-le m k p ((seq, q) ∷ is) =
    ground (arith, min_pending-le (if ltb seq m then seq else m) k p is)

min_pending_at :
    (m : ℕ) (is : List Item) → (min_pending m is ≡ m) ⊎ (lookup (min_pending m is) is ≢ none)
unfolding min_pending lookup
min_pending_at m [] = inl refl
min_pending_at m ((seq, q) ∷ is) = elim (min_pending_at (if ltb seq m then seq else m) is) [
  | inl e ↦ elim (Bool-cases (ltb seq m)) [
    | inl lt ↦ inr (λ h. ground arith)
    | inr ge ↦ inl (rw (ge, min_pending) (rw (ge, min_pending) at e))
  ]
  | inr ne ↦ inr (λ h. ne (tail_none seq (min_pending (if ltb seq m then seq else m) is) q is h))
]
  where
    tail_none :
        (seq k : ℕ) (q : List ℕ) (is : List Item)
        → lookup k ((seq, q) ∷ is) ≡ none
        → lookup k is ≡ none
    tail_none seq k q is h = ground arith

wake_only : (e : ℕ) → wake e (e ∷ []) ≡ []
unfolding wake
wake_only e = rw ((==_iff e e).1 refl)

-- A slot that expects a number, with nothing buffered and no timer.
abbrev pub waits_for : ℕ → Slot
waits_for n = record { next_seq = n; pending = []; timer_active = false; sleeping = [] }

-- The slot with one early entry and a goroutine that was started for the expected number.
abbrev one_early : ℕ → ℕ → List ℕ → Slot
one_early n k p = record {
  next_seq = n;
  pending = (k, p) ∷ [];
  timer_active = true;
  sleeping = n ∷ [];
}

receive_early :
    (max n k : ℕ) (p : List ℕ)
    → n + 2 ≤ k
    → k - n ≤ max
    → receive max (waits_for n) k p ≡ (one_early n k p, [])
unfolding receive buffer start_timer insert
receive_early max n k p above near =
    rw
      (
        le→ltb k n (omega (arith, above)),
        lt→ltb n k (omega (arith, above)),
        le→ltb max (k - n) near,
      )
      refl

drain_nothing :
    (fuel : ℕ) (s : Slot) → lookup s.next_seq s.pending ≡ none → drain_loop fuel s ≡ (s, [])
unfolding drain_loop
drain_nothing zero s e = refl
drain_nothing (suc fuel) s e = rw (e, drain_loop) refl

receive_expected_early :
    (max n k : ℕ) (p q : List ℕ)
    → n + 2 ≤ k
    → k < u64_mod
    → receive max (one_early n k p) n q
      ≡ (record (one_early n k p) { next_seq = n + 1 }, (n, q) ∷ [])
unfolding receive deliver_and_drain drain_pending rearm start_timer lookup
receive_expected_early max n k p q above fits =
    let filled : Slot = record (one_early n k p) { next_seq = n + 1 } in
    let quiet : lookup (n + 1) ((k, p) ∷ []) ≡ none =
      rw (ne_== k (n + 1) (λ e. omega (arith, e, above))) refl in
    rw
      (
        le→ltb n n (omega arith),
        mod-eq_of_lt {n = n + 1} {m = u64_mod} (omega (arith, above, fits)),
        drain_nothing (length filled.pending) filled quiet,
      )
      refl

-- A second gap is left without a timer: if, on a slot with nothing buffered and no timer, an entry comes that
-- is two or more above the expected number, below 2 ^ 64 and no further than the buffer allows, then the expected
-- entry, and then the timer wakes that the first one started, the expected entry is the only one delivered,
-- and the first one stays in the buffer, with the timer flag cleared and no goroutine asleep.
pub gap_timer_stranded :
    (max : ℕ) (on_gap : OnGap) (n k : ℕ) (p q : List ℕ)
    → n + 2 ≤ k
    → k - n ≤ max
    → k < u64_mod
    → let early = receive max (waits_for n) k p in
      let filled = receive max early.0 n q in
      let woken = gap_timer on_gap filled.0 n in
      (early.1 ≡ [])
      × (filled.1 ≡ (n, q) ∷ [])
      × (woken ≡ (record (waits_for (n + 1)) { pending = (k, p) ∷ [] }, []))
unfolding gap_timer
gap_timer_stranded max on_gap n k p q above near fits =
    rw
      (
        receive_early max n k p above near,
        receive_expected_early max n k p q above fits,
        ne_== (n + 1) n (λ e. omega (arith, e)),
        wake_only n,
      )
      (refl, refl, refl)

abbrev awake : Slot → ℕ → Slot
awake s e = record s { timer_active = false; sleeping = wake e s.sleeping }

-- A goroutine that wakes in time, without and with a repaired entry.
gap_timer_in_time :
    (max : ℕ) (s : Slot)
    → gap_timer (repair_gap max none) s s.next_seq ≡ skip_gap (awake s s.next_seq)
unfolding gap_timer repair_gap
gap_timer_in_time max s = rw ((==_iff s.next_seq s.next_seq).1 refl)

gap_timer_repaired :
    (max : ℕ) (s : Slot) (p : List ℕ)
    → gap_timer (repair_gap max (some p)) s s.next_seq
      ≡ receive max (awake s s.next_seq) s.next_seq p
unfolding gap_timer repair_gap
gap_timer_repaired max s p = rw ((==_iff s.next_seq s.next_seq).1 refl)

awake-one : (s : Slot) (e : ℕ) → s.sleeping ≡ e ∷ [] → length (awake s e).sleeping ≡ 0
awake-one s e one = ap length (ap (wake e) one ∙ wake_only e)

-- What a gap that no peer could fill comes to, wherever the buffered items are.
gap_timer_resumes :
    (max : ℕ) (s : Slot) (k : ℕ) (p : List ℕ)
    → IsSlot s
    → s.sleeping ≡ s.next_seq ∷ []
    → lookup k s.pending ≡ some p
    → k < max_uint64
    → let r = gap_timer (repair_gap max none) s s.next_seq in
      let low = min_pending max_uint64 s.pending in
      (low ≤ k) × Run low r.1 r.0.next_seq × (r.1 ≢ []) × IsSlot r.0 × IsArmed r.0
unfolding skip_gap
gap_timer_resumes max s k p v one h below =
    let low = min_pending max_uint64 s.pending in
    let le : low ≤ k = (min_pending-le max_uint64 k p s.pending).1 h in
    let started = record (awake s s.next_seq) { next_seq = low } in
    let skipped : gap_timer (repair_gap max none) s s.next_seq ≡ drain_pending started =
      gap_timer_in_time max s ∙ rw (ne_== low max_uint64 (λ e. omega (arith, e, le, below))) in
    let (slot, armed) = drain_pending-IsSlot started v.distinct (awake-one s s.next_seq one) in
    let here : lookup low s.pending ≢ none = elim (min_pending_at max_uint64 s.pending) [
      | inl e ↦ absurd (omega (arith, e, le, below))
      | inr ne ↦ ne
    ] in
    rw skipped (le, drain_pending-Run started, drain_pending-ne-nil started here, slot, armed)

-- A gap that no peer could fill is skipped: if the slot keeps its invariant, the only sleeping
-- goroutine was started for the number that is still expected, every buffered item is above that
-- number, and one of them is below the last number, then the deliveries start at the lowest
-- buffered number, which is above the expected one, go on one by one, and at least one is made; the
-- slot keeps its invariant, and what is left in the buffer has a timer.
pub gap_timer_skips :
    (max : ℕ) (s : Slot) (k : ℕ) (p : List ℕ)
    → IsSlot s
    → s.sleeping ≡ s.next_seq ∷ []
    → ((j : ℕ) (q : List ℕ) → lookup j s.pending ≡ some q → s.next_seq < j)
    → lookup k s.pending ≡ some p
    → k < max_uint64
    → let r = gap_timer (repair_gap max none) s s.next_seq in
      let low = min_pending max_uint64 s.pending in
      (s.next_seq < low)
      × (low ≤ k)
      × Run low r.1 r.0.next_seq
      × (r.1 ≢ [])
      × IsSlot r.0
      × IsArmed r.0
gap_timer_skips max s k p v one above h below =
    let low = min_pending max_uint64 s.pending in
    let (le, run, out, slot, armed) = gap_timer_resumes max s k p v one h below in
    let higher : s.next_seq < low = elim (min_pending_at max_uint64 s.pending) [
      | inl e ↦ absurd (omega (arith, e, le, below))
      | inr ne ↦ elim (Option-cases (lookup low s.pending)) [
        | inl absent ↦ absurd (ne absent)
        | inr (q, there) ↦ above low q there
      ]
    ] in
    (higher, le, run, out, slot, armed)

-- A gap that no peer could fill sets the slot back: if the slot keeps its invariant, the only
-- sleeping goroutine was started for the number that is still expected, which is below 2 ^ 64, and
-- an item below that number is buffered, then the deliveries start again below it, go on one by
-- one, and at least one is made.
pub gap_timer_rewinds :
    (max : ℕ) (s : Slot) (k : ℕ) (p : List ℕ)
    → IsSlot s
    → s.sleeping ≡ s.next_seq ∷ []
    → lookup k s.pending ≡ some p
    → k < s.next_seq
    → s.next_seq < u64_mod
    → let r = gap_timer (repair_gap max none) s s.next_seq in
      (low : ℕ) × (low < s.next_seq) × Run low r.1 r.0.next_seq × (r.1 ≢ [])
gap_timer_rewinds max s k p v one h lt fits =
    let (le, run, some_out, _, _) = gap_timer_resumes max s k p v one h (omega arith) in
    (min_pending max_uint64 s.pending, omega (arith, le, lt), run, some_out)

-- If the only sleeping goroutine was started for the number that is still expected and the repair
-- finds its entry, that entry is delivered, the deliveries go on behind it one by one, the slot
-- keeps its invariant, and what is left in the buffer has a timer.
pub gap_timer_repairs :
    (max : ℕ) (s : Slot) (p : List ℕ)
    → IsSlot s
    → s.sleeping ≡ s.next_seq ∷ []
    → let r = gap_timer (repair_gap max (some p)) s s.next_seq in
      Run s.next_seq r.1 r.0.next_seq × Delivered s.next_seq p r.1 × IsSlot r.0 × IsArmed r.0
gap_timer_repairs max s p v one =
    let started = record (awake s s.next_seq) { next_seq = next_of s.next_seq } in
    let (slot, armed) = drain_pending-IsSlot started v.distinct (awake-one s s.next_seq one) in
    rw (gap_timer_repaired max s p, receive_expected max (awake s s.next_seq) p)
      (unfold deliver_and_drain in
        ((refl, drain_pending-Run started), inl (refl, refl), slot, armed))
