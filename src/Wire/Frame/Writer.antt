-- ===== src/Wire/Frame/Writer.antt =====
-- eagerStreamWriter of engine/eager_stream.go: the stream to one peer, which is opened by the first send
-- and dropped when a write fails. Whether the transport opens a stream and takes each write is a parameter.
use mathlib.Core.List.{append_assoc, append-nil}
use gossip_mesh.Base.{
  ℕ, ◌≡◌, ◌⊎◌, refl, ap, ◌∙◌, sym, Bool, true, false, ◌&&◌, Option, none, some, List, [], ◌∷◌, ◌++◌,
  inl, inr, if◌then◌else◌, Bool-cases,
}
use gossip_mesh.Wire.Frame.Streams.{frame}

abbrev pub stream_type_eager_stream : ℕ
stream_type_eager_stream = 0x12

-- The open stream, as the bytes that have been written on it.
pub record EagerStreamWriter : Type 0 where
  pub stream : Option (List ℕ)

-- How the calls of the transport go: opening, and the writes of the type byte, of a header, of a message.
pub record Attempt : Type 0 where
  pub opened : Bool
  pub typed : Bool
  pub headed : Bool
  pub carried : Bool

-- The stream that a send writes on, if there is one.
pub ensure_stream : EagerStreamWriter → Attempt → Option (List ℕ)
ensure_stream w a = elim w.stream [
  | some s ↦ some s
  | none ↦ if a.opened && a.typed then some (stream_type_eager_stream ∷ []) else none
]

-- The writer after a send, and whether the send returned no error.
pub send : EagerStreamWriter → Attempt → List ℕ → EagerStreamWriter × Bool
unfolding ensure_stream
send w a msg = elim (ensure_stream w a) [
  | none ↦ (w, false)
  | some s ↦
      if a.headed && a.carried
      then (record { stream = some (s ++ frame msg) }, true)
      else (record { stream = none }, false)
]

pub close : EagerStreamWriter → EagerStreamWriter
close w = record { stream = none }

-- What a stream carries behind its type byte.
abbrev pub frames_of : List (List ℕ) → List ℕ
frames_of [] = []
frames_of (m ∷ ms) = frame m ++ frames_of ms

-- The open stream carries the messages, each in one whole frame; without a stream there are none.
abbrev pub Carries : List (List ℕ) → EagerStreamWriter → Type 0
Carries ms w =
    (w.stream ≡ some (stream_type_eager_stream ∷ frames_of ms)) ⊎ ((w.stream ≡ none) × (ms ≡ []))

frames_of-append :
    (ms : List (List ℕ)) (m : List ℕ) → frames_of (ms ++ m ∷ []) ≡ frames_of ms ++ frame m
frames_of-append [] m = append-nil (frame m)
frames_of-append (x ∷ ms) m =
    ap (λ r. frame x ++ r) (frames_of-append ms m)
    ∙ sym (append_assoc (frame x) (frames_of ms) (frame m))

send_on :
    (w : EagerStreamWriter) (a : Attempt) (msg : List ℕ) (ms : List (List ℕ))
    → ensure_stream w a ≡ some (stream_type_eager_stream ∷ frames_of ms)
    → let (w', sent) = send w a msg in
      ((sent ≡ true) × Carries (ms ++ msg ∷ []) w') ⊎ ((sent ≡ false) × (w'.stream ≡ none))
unfolding send
send_on w a msg ms e = elim (Bool-cases (a.headed && a.carried)) [
  | inl through ↦
      rw (e, send, through)
        (inl (
          refl,
          inl (ap (λ r. some (stream_type_eager_stream ∷ r)) (sym (frames_of-append ms msg))),
        ))
  | inr broken ↦ rw (e, send, broken) (inr (refl, refl))
]

send_unopened :
    (w : EagerStreamWriter) (a : Attempt) (msg : List ℕ) (ms : List (List ℕ))
    → w.stream ≡ none
    → ensure_stream w a ≡ none
    → let (w', sent) = send w a msg in
      ((sent ≡ true) × Carries (ms ++ msg ∷ []) w') ⊎ ((sent ≡ false) × (w'.stream ≡ none))
unfolding send
send_unopened w a msg ms shut e = rw (e, send) (inr (refl, shut))

-- If the open stream carries whole frames behind its type byte, or there is none: a send that returns no
-- error has put its message, whole, behind those that the stream carries, and one that fails leaves no
-- open stream.
pub send-Carries :
    (w : EagerStreamWriter) (a : Attempt) (msg : List ℕ) (ms : List (List ℕ))
    → Carries ms w
    → let (w', sent) = send w a msg in
      ((sent ≡ true) × Carries (ms ++ msg ∷ []) w') ⊎ ((sent ≡ false) × (w'.stream ≡ none))
unfolding ensure_stream
send-Carries w a msg ms (inl there) = send_on w a msg ms (rw (there, ensure_stream) refl)
send-Carries w a msg ms (inr (shut, nothing)) = elim (Bool-cases (a.opened && a.typed)) [
  | inl fresh ↦ rw nothing (send_on w a msg [] (rw (shut, ensure_stream, fresh) refl))
  | inr failed ↦ send_unopened w a msg ms shut (rw (shut, ensure_stream, failed) refl)
]
