-- ===== src/Wire/Frame/Streams.antt =====
-- The persistent eager streams of engine/eager_stream.go: what eagerStreamWriter.send writes for each
-- message, and the loop of receiveEagerStream, which hands messages to the eager handler.
use native.Mathlib.Nat.{mod-eq_of_lt}
use mathlib.Core.List.{append_assoc}
use gossip_mesh.Base.{
  ℕ, zero, suc, ◌+◌, ◌%◌, ◌<◌, ◌≤◌, ◌≡◌, refl, ap, ◌∙◌, arith, List, [], ◌∷◌, ◌++◌, map, length,
  length-append, length-drop, Option, none, some, Bool-cases, inl, inr, take, drop, take-append,
  drop-append, ltb, ◌==◌, le→ltb, ltb→le, if◌then◌else◌, u32_mod, All,
}
use gossip_mesh.Base.Bytes.{put_be, get_be, length-put_be, get_be-put_be, drop-put_be}
use gossip_mesh.Wire.Entry.{GossipEntry, IsEntry, ok}
use gossip_mesh.Wire.Eager.{
  msg_type_eager_gossip, encode_eager_message, decode_eager_message, strip_type,
  decode-encode_eager_message, length-encode_eager_message,
}
use gossip_mesh.Wire.Frame.Batches.{max_frame}

-- The header and the message, as one send writes them on an open stream.
pub frame : List ℕ → List ℕ
frame msg = put_be 4 (length msg % u32_mod) ++ msg

-- The type byte is taken off where it is there.
pub strip_eager : List ℕ → List ℕ
strip_eager [] = []
strip_eager (b ∷ bs) = if b == msg_type_eager_gossip then bs else b ∷ bs

-- The return that ends the loop: the header could not be read, the frame is over the limit, or the
-- message could not be read.
pub data StreamEnd : Type 0 where
  no_header over_limit cut_short : StreamEnd

-- The messages handed to the handler, in order, and the return; none when the fuel is used up. A round takes
-- at least the four bytes of a header.
pub receive_loop : ℕ → List ℕ → List (List ℕ) × Option StreamEnd
receive_loop zero r = ([], none)
receive_loop (suc fuel) r =
    let size : ℕ = get_be 4 r in
    let later : List (List ℕ) × Option StreamEnd = receive_loop fuel (drop size (drop 4 r)) in
    if ltb (length r) 4
    then ([], some no_header)
    else if ltb max_frame size
    then ([], some over_limit)
    else if ltb (length (drop 4 r)) size
    then ([], some cut_short)
    else (strip_eager (take size (drop 4 r)) ∷ later.0, later.1)

pub receive_eager_stream : List ℕ → List (List ℕ)
receive_eager_stream r = (receive_loop (length r + 1) r).0

-- Any two amounts of fuel above the number of bytes give the same messages and the same return.
receive_loop_stable :
    (n m : ℕ) (r : List ℕ) → length r < n → length r < m → receive_loop n r ≡ receive_loop m r
unfolding receive_loop
receive_loop_stable zero m r h k = absurd (omega (arith, h))
receive_loop_stable (suc n) zero r h k = absurd (omega (arith, k))
receive_loop_stable (suc n) (suc m) r h k = ground (
  arith,
  receive_loop_stable n m (drop (get_be 4 r) (drop 4 r)),
  length-drop 4 r,
  length-drop (get_be 4 r) (drop 4 r),
)

loop_returns :
    (n : ℕ) (r : List ℕ) → length r < n → (x : StreamEnd) × ((receive_loop n r).1 ≡ some x)
unfolding receive_loop
loop_returns zero r h = absurd (omega (arith, h))
loop_returns (suc n) r h = elim (Bool-cases (ltb (length r) 4)) [
  | inl cut ↦ (no_header, rw (receive_loop, cut) refl)
  | inr whole ↦ elim (Bool-cases (ltb max_frame (get_be 4 r))) [
    | inl over ↦ (over_limit, rw (receive_loop, whole, over) refl)
    | inr within ↦ elim (Bool-cases (ltb (length (drop 4 r)) (get_be 4 r))) [
      | inl short ↦ (cut_short, rw (receive_loop, whole, within, short) refl)
      | inr there ↦
          rw (receive_loop, whole, within, there)
            (loop_returns n (drop (get_be 4 r) (drop 4 r)) (
              omega (
                arith,
                h,
                length-drop 4 r,
                length-drop (get_be 4 r) (drop 4 r),
                ltb→le (length r) 4 whole,
              )))
    ]
  ]
]

-- The loop over an eager stream ends: with more fuel than there are bytes it has come to one of its
-- returns, and has handed over the messages that receiveEagerStream hands over.
pub receive_loop_enough :
    (n : ℕ) (r : List ℕ)
    → length r < n
    → (x : StreamEnd) × (receive_loop n r ≡ (receive_eager_stream r, some x))
unfolding receive_eager_stream
receive_loop_enough n r h =
    let (x, ended) = loop_returns n r h in
    let same = receive_loop_stable n (length r + 1) r h (omega arith) in
    (
      x,
      ap (λ m. (m, (receive_loop n r).1)) (ap (λ p. p.0) same)
          ∙ ap (λ o. ((receive_loop (length r + 1) r).0, o)) ended,
    )

loop-frame :
    (n : ℕ) (msg rest : List ℕ)
    → length msg ≤ max_frame
    → (receive_loop (suc n) (frame msg ++ rest)).0 ≡ strip_eager msg ∷ (receive_loop n rest).0
unfolding receive_loop frame
loop-frame n msg rest h =
    let fits : length msg < u32_mod = omega (arith, h) in
    let header = put_be 4 (length msg) in
    rw (
      append_assoc (put_be 4 (length msg % u32_mod)) msg rest,
      mod-eq_of_lt fits,
      get_be-put_be 4 (length msg) (msg ++ rest) fits,
      drop-put_be 4 (length msg) (msg ++ rest),
      take-append msg rest,
      drop-append msg rest,
      le→ltb (length (header ++ (msg ++ rest))) 4
          (omega (arith, length-append header (msg ++ rest), length-put_be 4 (length msg))),
      le→ltb max_frame (length msg) h,
      le→ltb (length (msg ++ rest)) (length msg) (omega (arith, length-append msg rest)),
    )

length-frame : (msg : List ℕ) → length (frame msg) ≡ 4 + length msg
unfolding frame
length-frame msg = omega (
  arith,
  length-append (put_be 4 (length msg % u32_mod)) msg,
  length-put_be 4 (length msg % u32_mod),
)

-- A whole frame is handed over, and the loop goes on behind it.
pub receive-frame :
    (msg rest : List ℕ)
    → length msg ≤ max_frame
    → receive_eager_stream (frame msg ++ rest) ≡ strip_eager msg ∷ receive_eager_stream rest
unfolding receive_eager_stream
receive-frame msg rest h =
    let r = frame msg ++ rest in
    ap (λ p. p.0)
      (receive_loop_stable (length r + 1) (suc (length r)) r (omega arith) (omega arith))
    ∙ loop-frame (length r) msg rest h
    ∙ ap (λ p. strip_eager msg ∷ p.0)
        (receive_loop_stable (length r) (length rest + 1) rest
          (omega (arith, length-append (frame msg) rest, length-frame msg)) (omega arith))

abbrev pub frames : List GossipEntry → List ℕ
frames [] = []
frames (e ∷ es) = frame (encode_eager_message e) ++ frames es

pub strip_eager-encode :
    (e : GossipEntry) → strip_eager (encode_eager_message e) ≡ strip_type (encode_eager_message e)
unfolding strip_eager encode_eager_message
strip_eager-encode e = refl

-- Entries within their types, whose messages are within the reader's limit, and which are sent on
-- one stream, are handed to the eager handler in the order of sending, each as bytes that decode to
-- it, and what is on the stream behind them is read as if it stood alone.
pub receive-frames :
    (es : List GossipEntry) (rest : List ℕ)
    → All (λ e. IsEntry e × (length e.payload + 11 ≤ max_frame)) es
    → map decode_eager_message (receive_eager_stream (frames es ++ rest))
      ≡ map ok es ++ map decode_eager_message (receive_eager_stream rest)
receive-frames [] rest v = refl
receive-frames (e ∷ es) rest v =
    let msg = encode_eager_message e in
    rw (
      append_assoc (frame msg) (frames es) rest,
      receive-frame msg (frames es ++ rest) (omega (arith, length-encode_eager_message e, v.0.1)),
      strip_eager-encode e,
      decode-encode_eager_message e v.0.0,
      receive-frames es rest v.1,
    )

-- A stream that is cut inside a frame's header or body hands over nothing of that frame.
pub receive_cut : (r : List ℕ) → length r < 4 + get_be 4 r → receive_eager_stream r ≡ []
unfolding receive_eager_stream receive_loop
receive_cut [] h = refl
receive_cut (b ∷ bs) h = ground (arith, length-drop 4 (b ∷ bs))
