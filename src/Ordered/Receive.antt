-- ===== src/Ordered/Receive.antt =====
-- Receive (engine/ordered.go): the order of delivery, and that nothing is lost or made up.
use gossip_mesh.Base.{
  ℕ, ◌+◌, ◌-◌, ◌<◌, ◌≤◌, ◌≡◌, ◌≢◌, refl, subst, sym, arith, true, some, List, [], ◌∷◌, ltb, ◌==◌,
  if◌then◌else◌, Bool-cases, inl, inr, ◌⊎◌, All, All-map, ltb→lt, ltb→le, ne_==, ==_iff,
}
use gossip_mesh.Base.Table.{lookup, insert, lookup-insert, insert-IsMap, nat_key}
use gossip_mesh.Ordered.{
  Item, Slot, next_of, start_timer, buffer, deliver_and_drain, drain_pending, receive,
}
use gossip_mesh.Ordered.Drain.{
  Run, Delivered, IsSlot, IsArmed, drain_pending-IsSlot, drain_pending-Run, drain_pending_keeps,
  drain_pending_from, start_timer-one,
}

pub receive_expected :
    (max : ℕ) (s : Slot) (p : List ℕ)
    → receive max s s.next_seq p ≡ deliver_and_drain s (next_of s.next_seq) s.next_seq p
unfolding receive
receive_expected max s p = ground arith

-- A rule for any statement about the result: one premise for each way.
pub receive_cases {ℓ} :
    (P : Slot × List Item → Type ℓ) (max : ℕ) (s : Slot) (seq : ℕ) (p : List ℕ)
    → (seq < s.next_seq → P (s, []))
    → (seq ≡ s.next_seq → P (deliver_and_drain s (next_of seq) seq p))
    → (s.next_seq < seq → seq - s.next_seq ≤ max → P (buffer s seq p, []))
    → (s.next_seq + max < seq → P (deliver_and_drain s (next_of seq) seq p))
    → P (receive max s seq p)
unfolding receive
receive_cases P max s seq p duplicate expected early leap = elim (Bool-cases (ltb seq s.next_seq)) [
  | inl e ↦ rw (e, receive) (duplicate (ltb→lt seq s.next_seq e))
  | inr e ↦ elim (Bool-cases (ltb s.next_seq seq)) [
    | inl e' ↦ elim (Bool-cases (ltb max (seq - s.next_seq))) [
      | inl e'' ↦ rw (e, e', e'') (leap (omega (arith, ltb→lt max (seq - s.next_seq) e'')))
      | inr e'' ↦
          rw (e, e', e'') (early (ltb→lt s.next_seq seq e') (ltb→le max (seq - s.next_seq) e''))
    ]
    | inr e' ↦
        let same : seq ≡ s.next_seq =
          omega (arith, ltb→le seq s.next_seq e, ltb→le s.next_seq seq e') in
        rw (e, e') (subst (λ n. P (deliver_and_drain s (next_of n) seq p)) same (expected same))
  ]
]

buffer_fields :
    (s : Slot) (seq : ℕ) (p : List ℕ)
    → ((buffer s seq p).next_seq ≡ s.next_seq)
      × ((buffer s seq p).pending ≡ insert seq p s.pending)
      × ((buffer s seq p).timer_active ≡ true)
unfolding buffer start_timer
buffer_fields s seq p = (ground arith, ground arith, ground arith)

pub buffer-IsSlot :
    (s : Slot) (seq : ℕ) (p : List ℕ) → s.next_seq < seq → IsSlot s → IsSlot (buffer s seq p)
unfolding buffer
buffer-IsSlot s seq p h v =
    let (n, m, _) = buffer_fields s seq p in
    record {
      distinct = rw m (insert-IsMap seq p s.pending v.distinct);
      drained =
          rw
            (
              n,
              m,
              lookup-insert seq s.next_seq p s.pending,
              ne_== seq s.next_seq (λ e. omega (arith, e, h)),
            )
            v.drained;
      one_timer =
          start_timer-one (record s { pending = insert seq p s.pending }) s.next_seq v.one_timer;
    }

-- Receive keeps the invariant of a slot whose buffered items have a timer, and they still have one
-- afterwards.
pub receive-IsSlot :
    (max : ℕ) (s : Slot) (seq : ℕ) (p : List ℕ)
    → IsSlot s
    → IsArmed s
    → IsSlot (receive max s seq p).0 × IsArmed (receive max s seq p).0
unfolding deliver_and_drain
receive-IsSlot max s seq p v armed =
    let drain = drain_pending-IsSlot (record s { next_seq = next_of seq }) v.distinct v.one_timer in
    receive_cases (λ r. IsSlot r.0 × IsArmed r.0) max s seq p (λ _. (v, armed)) (λ _. drain)
      (λ lt _. (buffer-IsSlot s seq p lt v, λ off. cc (off, (buffer_fields s seq p).2)))
      (λ _. drain)

-- Unless the entry leaps over more than the buffer may hold, the deliveries carry the numbers from
-- the expected one on, one by one, up to the next expected one.
pub receive-Run :
    (max : ℕ) (s : Slot) (seq : ℕ) (p : List ℕ)
    → seq ≤ s.next_seq + max
    → Run s.next_seq (receive max s seq p).1 (receive max s seq p).0.next_seq
unfolding deliver_and_drain
receive-Run max s seq p near =
    receive_cases (λ r. Run s.next_seq r.1 r.0.next_seq) max s seq p (λ _. refl)
      (λ e. rw (← e) (refl, drain_pending-Run (record s { next_seq = next_of seq })))
      (λ _ _. sym (buffer_fields s seq p).0) (λ far. absurd (omega (arith, far, near)))

-- An entry that leaps further is delivered at once, ahead of what is missing, and the deliveries go on
-- behind it.
pub receive-Run_leap :
    (max : ℕ) (s : Slot) (seq : ℕ) (p : List ℕ)
    → s.next_seq + max < seq
    → (more : List Item) × ((receive max s seq p).1 ≡ (seq, p) ∷ more)
      × Run (next_of seq) more (receive max s seq p).0.next_seq
unfolding deliver_and_drain
receive-Run_leap max s seq p far =
    receive_cases
      (λ r. (more : List Item) × (r.1 ≡ (seq, p) ∷ more) × Run (next_of seq) more r.0.next_seq) max
      s seq p (λ h. absurd (omega (arith, h, far))) (λ h. absurd (omega (arith, h, far)))
      (λ _ h. absurd (omega (arith, h, far)))
      (λ _. (_, refl, drain_pending-Run (record s { next_seq = next_of seq })))

-- What a slot may deliver: the received entry and what it has buffered.
abbrev pub Known : Slot → ℕ → List ℕ → Item → Type 0
Known s seq p i = ((i.0 ≡ seq) × (i.1 ≡ p)) ⊎ (lookup i.0 s.pending ≡ some i.1)

-- Every delivery is the received entry or a buffered item with its own payload, and so is everything
-- in the buffer afterwards.
pub receive_from :
    (max : ℕ) (s : Slot) (seq : ℕ) (p : List ℕ)
    → IsSlot s
    → All (Known s seq p) (receive max s seq p).1
      × ((k : ℕ) (q : List ℕ)
          → lookup k (receive max s seq p).0.pending ≡ some q
          → Known s seq p (k, q))
unfolding deliver_and_drain
receive_from max s seq p v =
    let (old, kept) = drain_pending_from (record s { next_seq = next_of seq }) v.distinct in
    let drained : All (Known s seq p)
        ((seq, p) ∷ (drain_pending (record s { next_seq = next_of seq })).1) =
      (inl (refl, refl), All-map _ _ (λ i h. inr h) _ old) in
    receive_cases
      (λ r.
        All (Known s seq p) r.1
        × ((k : ℕ) (q : List ℕ) → lookup k r.0.pending ≡ some q → Known s seq p (k, q)))
      max s seq p (λ _. (tt, λ k q h. inr h)) (λ _. (drained, λ k q h. inr (kept k q h)))
      (λ _ _. (
        tt,
        λ k q h.
            insert_from k q (rw ((buffer_fields s seq p).1, lookup-insert seq k p s.pending) at h),
      ))
      (λ _. (drained, λ k q h. inr (kept k q h)))
  where
    insert_from :
        (k : ℕ) (q : List ℕ)
        → (if seq == k then some p else lookup k s.pending) ≡ some q
        → Known s seq p (k, q)
    insert_from k q h = ground arith

-- From a slot that keeps its invariant, a buffered item whose number is not the received one stays
-- in the buffer or is delivered.
pub receive_keeps :
    (max : ℕ) (s : Slot) (seq : ℕ) (p : List ℕ) (k : ℕ) (q : List ℕ)
    → IsSlot s
    → k ≢ seq
    → lookup k s.pending ≡ some q
    → (lookup k (receive max s seq p).0.pending ≡ some q) ⊎ Delivered k q (receive max s seq p).1
unfolding deliver_and_drain
receive_keeps max s seq p k q v ne h =
    receive_cases (λ r. (lookup k r.0.pending ≡ some q) ⊎ Delivered k q r.1) max s seq p
      (λ _. inl h) (λ _. drained)
      (λ _ _. inl (
        rw
          (
            (buffer_fields s seq p).1,
            lookup-insert seq k p s.pending,
            ne_== seq k (λ e. ne (sym e)),
          )
          h))
      (λ _. drained)
  where
    drained :
        (lookup k (drain_pending (record s { next_seq = next_of seq })).0.pending ≡ some q)
        ⊎ Delivered k q ((seq, p) ∷ (drain_pending (record s { next_seq = next_of seq })).1)
    drained = elim (drain_pending_keeps (record s { next_seq = next_of seq }) k q v.distinct h) [
      | inl a ↦ inl a
      | inr b ↦ inr (inr b)
    ]

-- An entry that is not a duplicate is delivered or buffered.
pub receive_takes :
    (max : ℕ) (s : Slot) (seq : ℕ) (p : List ℕ)
    → s.next_seq ≤ seq
    → (lookup seq (receive max s seq p).0.pending ≡ some p)
      ⊎ Delivered seq p (receive max s seq p).1
unfolding deliver_and_drain
receive_takes max s seq p h =
    receive_cases (λ r. (lookup seq r.0.pending ≡ some p) ⊎ Delivered seq p r.1) max s seq p
      (λ lt. absurd (omega (arith, lt, h))) (λ _. inr (inl (refl, refl)))
      (λ _ _. inl (
        rw ((buffer_fields s seq p).1, lookup-insert seq seq p s.pending, (==_iff seq seq).1 refl)))
      (λ _. inr (inl (refl, refl)))

-- From a slot that keeps its invariant, every delivery of Receive is the received entry or an item
-- that was buffered, with its own payload.
pub receive-Known :
    (max : ℕ) (s : Slot) (seq : ℕ) (p : List ℕ)
    → IsSlot s
    → All (Known s seq p) (receive max s seq p).1
receive-Known max s seq p v = (receive_from max s seq p v).0
