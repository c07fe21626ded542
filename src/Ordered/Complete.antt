-- ===== src/Ordered/Complete.antt =====
-- Receive on a whole sequence of arrivals, below the point where sequence numbers wrap.
use native.Mathlib.Decide.{dec_lt, ℕ_discrete}
use gossip_mesh.Base.{
  ℕ, ◌+◌, ◌<◌, ◌≤◌, ◌≡◌, refl, arith, none, some, List, [], ◌∷◌, ◌++◌, inl, inr, ◌⊎◌, Any, All,
  All-map,
}
use gossip_mesh.Base.Table.{lookup, nat_key}
use gossip_mesh.Ordered.{Item, Slot, next_of, max_uint64, receive}
use gossip_mesh.Ordered.Drain.{Run, Delivered, Has, IsSlot, IsArmed}
use gossip_mesh.Ordered.Receive.{
  Known, receive-IsSlot, receive-Run, receive_from, receive_keeps, receive_takes,
}

pub receive_all : ℕ → Slot → List Item → Slot × List Item
receive_all max s [] = (s, [])
receive_all max s ((seq, p) ∷ is) =
    let (s1, out) = receive max s seq p in
    let (s2, more) = receive_all max s1 is in (s2, out ++ more)

Run-append : (n m k : ℕ) (xs ys : List Item) → Run n xs m → Run m ys k → Run n (xs ++ ys) k
Run-append n m k [] ys a b = rw a b
Run-append n m k (x ∷ xs) ys a b = (a.0, Run-append (next_of n) m k xs ys a.1 b)

-- The delivered numbers of a run that does not wrap are below its end.
abbrev Fits : Item → Type 0
Fits i = i.0 < max_uint64

Run-le : (n m : ℕ) (xs : List Item) → All Fits xs → Run n xs m → n ≤ m
Run-le n m [] f r = omega arith
Run-le n m (x ∷ xs) f r =
    let here : n < max_uint64 = rw r.0 at f.0 in omega (arith, Run-le (next_of n) m xs f.1 r.1)

Run-Delivered :
    (n m k : ℕ) (p : List ℕ) (xs : List Item) → All Fits xs → Run n xs m → Delivered k p xs → k < m
Run-Delivered n m k p [] f r d = elim d [ ]
Run-Delivered n m k p (x ∷ xs) f r (inl e) =
    omega (arith, Run-le (next_of n) m xs f.1 r.1, f.0, r.0, e.0)
Run-Delivered n m k p (x ∷ xs) f r (inr d) = Run-Delivered (next_of n) m k p xs f.1 r.1 d

-- Nothing in the buffer is at the last number.
abbrev pub Bounded : Slot → Type 0
Bounded s = (k : ℕ) (p : List ℕ) → lookup k s.pending ≡ some p → k < max_uint64

receive-Fits :
    (max : ℕ) (s : Slot) (seq : ℕ) (p : List ℕ)
    → IsSlot s
    → Bounded s
    → seq < max_uint64
    → All Fits (receive max s seq p).1 × Bounded (receive max s seq p).0
receive-Fits max s seq p v b h =
    let (out, kept) = receive_from max s seq p v in
    (All-map _ _ (λ i k. known i k) _ out, λ k q e. known (k, q) (kept k q e))
  where
    known : (i : Item) → Known s seq p i → Fits i
    known i (inl e) = omega (arith, e.0, h)
    known i (inr e) = b i.0 i.1 e

-- The number has been passed, or is buffered.
abbrev pub Settled : ℕ → Slot → Type 0
Settled k s = (k < s.next_seq) ⊎ Has k s

-- An entry that the buffer has room for, from the expected number on.
abbrev pub Near : ℕ → ℕ → Item → Type 0
Near max n i = (i.0 ≤ n + max) × (i.0 < max_uint64)

receive_mono :
    (max : ℕ) (s : Slot) (seq : ℕ) (p : List ℕ)
    → IsSlot s
    → Bounded s
    → Near max s.next_seq (seq, p)
    → s.next_seq ≤ (receive max s seq p).0.next_seq
receive_mono max s seq p v b h =
    Run-le s.next_seq _ (receive max s seq p).1 (receive-Fits max s seq p v b h.1).0
      (receive-Run max s seq p h.0)

receive_passes :
    (max : ℕ) (s : Slot) (seq : ℕ) (p : List ℕ) (k : ℕ) (q : List ℕ)
    → IsSlot s
    → Bounded s
    → Near max s.next_seq (seq, p)
    → (lookup k (receive max s seq p).0.pending ≡ some q) ⊎ Delivered k q (receive max s seq p).1
    → Settled k (receive max s seq p).0
receive_passes max s seq p k q v b h (inl e) = inr (q, e)
receive_passes max s seq p k q v b h (inr d) = inl (
    Run-Delivered s.next_seq _ k q (receive max s seq p).1 (receive-Fits max s seq p v b h.1).0
      (receive-Run max s seq p h.0) d)

receive_takes-Settled :
    (max : ℕ) (s : Slot) (seq : ℕ) (p : List ℕ)
    → IsSlot s
    → Bounded s
    → Near max s.next_seq (seq, p)
    → Settled seq (receive max s seq p).0
receive_takes-Settled max s seq p v b h = elim (dec_lt seq s.next_seq) [
  | yes lt ↦ inl (omega (arith, lt, receive_mono max s seq p v b h))
  | no le ↦ receive_passes max s seq p seq p v b h (receive_takes max s seq p (omega arith))
]

receive_keeps-Settled :
    (max : ℕ) (s : Slot) (seq : ℕ) (p : List ℕ) (k : ℕ)
    → IsSlot s
    → Bounded s
    → Near max s.next_seq (seq, p)
    → Settled k s
    → Settled k (receive max s seq p).0
receive_keeps-Settled max s seq p k v b h (inl lt) =
    inl (omega (arith, lt, receive_mono max s seq p v b h))
receive_keeps-Settled max s seq p k v b h (inr (q, e)) = elim (ℕ_discrete k seq) [
  | yes same ↦ rw same (receive_takes-Settled max s seq p v b h)
  | no other ↦ receive_passes max s seq p k q v b h (receive_keeps max s seq p k q v other e)
]

-- The slot after a sequence of near arrivals: the invariant, the run, and that every number that was
-- settled or arrived is settled.
record Outcome (max : ℕ) (s : Slot) (is : List Item) : Type 0 where
  slot : IsSlot (receive_all max s is).0
  armed : IsArmed (receive_all max s is).0
  run : Run s.next_seq (receive_all max s is).1 (receive_all max s is).0.next_seq
  mono : s.next_seq ≤ (receive_all max s is).0.next_seq
  settled : (k : ℕ) → Settled k s ⊎ Any (λ i. i.0 ≡ k) is → Settled k (receive_all max s is).0

Near-mono : (max n m : ℕ) (is : List Item) → n ≤ m → All (Near max n) is → All (Near max m) is
Near-mono max n m is h a = All-map _ _ (λ i near. (omega (arith, near.0, h), near.1)) is a

receive_all_lem :
    (max : ℕ) (s : Slot) (is : List Item)
    → IsSlot s
    → IsArmed s
    → Bounded s
    → All (Near max s.next_seq) is
    → Outcome max s is
unfolding receive_all
receive_all_lem max s [] v ar b near = record {
  slot = v;
  armed = ar;
  run = refl;
  mono = omega arith;
  settled = λ k. elim [ inl a ↦ a | inr n ↦ elim n [ ] ];
}
receive_all_lem max s ((seq, p) ∷ is) v ar b (here, near) =
    let s1 = (receive max s seq p).0 in
    let (v1, ar1) = receive-IsSlot max s seq p v ar in
    let up = receive_mono max s seq p v b here in
    let rest =
      receive_all_lem max s1 is v1 ar1 (receive-Fits max s seq p v b here.1).1
        (Near-mono max s.next_seq s1.next_seq is up near) in
    record {
      slot = rest.slot;
      armed = rest.armed;
      run = Run-append _ _ _ _ _ (receive-Run max s seq p here.0) rest.run;
      mono = omega (arith, up, rest.mono);
      settled = λ k a. rest.settled k (first k a);
    }
  where
    first :
        (k : ℕ)
        → Settled k s ⊎ Any (λ i. i.0 ≡ k) ((seq, p) ∷ is)
        → Settled k (receive max s seq p).0 ⊎ Any (λ i. i.0 ≡ k) is
    first k (inl a) = inl (receive_keeps-Settled max s seq p k v b here a)
    first k (inr (inl e)) = inl (rw (← e) (receive_takes-Settled max s seq p v b here))
    first k (inr (inr n)) = inr n

-- From a slot that keeps its invariant, has a timer for what is buffered and holds nothing at the
-- last number: whatever the order of the arrivals, and however often each comes, if none leaps
-- further than the buffer allows or has the last number, and every number from the expected one up
-- to `m` further is among them, then the deliveries carry the numbers from the expected one on, each
-- once and in order, and the slot ends at least `m` further.
pub receive_all_complete :
    (max : ℕ) (s : Slot) (is : List Item) (m : ℕ)
    → IsSlot s
    → IsArmed s
    → Bounded s
    → All (Near max s.next_seq) is
    → ((k : ℕ) → s.next_seq ≤ k → k < s.next_seq + m → Any (λ i. i.0 ≡ k) is)
    → Run s.next_seq (receive_all max s is).1 (receive_all max s is).0.next_seq
      × (s.next_seq + m ≤ (receive_all max s is).0.next_seq)
receive_all_complete max s is m v ar b near all =
    let o = receive_all_lem max s is v ar b near in
    let n = (receive_all max s is).0.next_seq in
    (
      o.run,
      elim (dec_lt n (s.next_seq + m)) [
        | no done ↦ omega arith
        | yes short ↦ absurd (stuck (o.settled n (inr (all n o.mono short))) o.slot.drained)
      ],
    )
  where
    stuck :
        Settled (receive_all max s is).0.next_seq (receive_all max s is).0
        → lookup (receive_all max s is).0.next_seq (receive_all max s is).0.pending ≡ none
        → ⊥
    stuck (inl lt) e = omega arith
    stuck (inr (q, h)) e = cc
