-- ===== src/Repair/Serving.antt =====
-- A repair pull from end to end (engine/repair.go).
use gossip_mesh.Base.{
  ℕ, ◌<◌, ◌≡◌, ◌≢◌, refl, ap, ◌∙◌, arith, Option, none, some, List, [], ◌∷◌, ◌++◌, length, drop,
  length-append, le→ltb, ◌⊎◌, inl, inr, All, u16_mod, u64_mod,
}
use gossip_mesh.Base.Table.{lookup}
use gossip_mesh.Base.Bytes.{put_be, get_be, length-put_be, get_be-put_be, drop-put_be}
use mathlib.Core.List.{append-nil}
use gossip_mesh.Wire.Entry.{GossipEntry}
use gossip_mesh.Wire.Eager.{strip_type}
use gossip_mesh.Repair.{
  Cache, topic_seq_key, handle_request, PullResult, failed, missed, found, repair_request,
  read_response, request_repair,
}

-- What the requester makes of a cached payload, or of its absence.
abbrev pub answer_of : ℕ → ℕ → Option (List ℕ) → PullResult
answer_of topic seq none = missed
answer_of topic seq (some p) = found (record { topic = topic; seq = seq; payload = p })

handle_request_of :
    (c : Cache) (topic seq : ℕ) (o : Option (List ℕ))
    → lookup (record { topic = topic; seq = seq }) c ≡ o
    → topic < u16_mod
    → seq < u64_mod
    → read_response topic seq (handle_request c (put_be 2 topic ++ put_be 8 seq))
      ≡ answer_of topic seq o
unfolding handle_request read_response
handle_request_of c topic seq o e ht hs =
    let tail = put_be 8 seq in
    let seq_at : get_be 8 (drop 2 (put_be 2 topic ++ tail)) ≡ seq =
      rw drop-put_be (rw (append-nil tail) at (get_be-put_be 8 seq [] hs)) in
    rw
      (
        le→ltb (length (put_be 2 topic ++ tail)) 10 (
            omega (
              arith,
              length-append (put_be 2 topic) tail,
              length-put_be 2 topic,
              length-put_be 8 seq,
            )),
        get_be-put_be 2 topic tail ht,
        seq_at,
        e,
        handle_request,
      )
      (answered o)
  where
    answered :
        (o : Option (List ℕ))
        → read_response topic seq (elim o [ none ↦ 0x00 ∷ [] | some p ↦ 0x01 ∷ p ])
          ≡ answer_of topic seq o
    answered none = refl
    answered (some p) = refl

-- For a topic and a number within their types, the bytes of a request, behind the type byte that the
-- peer's transport strips, make the peer answer with the payload that it has cached for them, and
-- with a miss where it has none.
pub pull-handle_request :
    (c : Cache) (topic seq : ℕ)
    → topic < u16_mod
    → seq < u64_mod
    → read_response topic seq (handle_request c (strip_type (repair_request topic seq)))
      ≡ answer_of topic seq (lookup (record { topic = topic; seq = seq }) c)
unfolding repair_request
pull-handle_request c topic seq ht hs = handle_request_of c topic seq _ refl ht hs

PullResult-cases :
    (r : PullResult) → ((r ≡ failed) ⊎ (r ≡ missed)) ⊎ ((e : GossipEntry) × (r ≡ found e))
PullResult-cases failed = inl (inl refl)
PullResult-cases missed = inl (inr refl)
PullResult-cases (found e) = inr (e, refl)

-- Without a result every peer failed or missed; a result is what some peer answered.
pub request_repair_lem {ℓ} :
    {P : Type ℓ} (pull : P → ℕ → ℕ → PullResult) (ps : List P) (topic seq : ℕ)
    → (request_repair pull ps topic seq ≡ none
        → All (λ p. (e : GossipEntry) → pull p topic seq ≢ found e) ps)
      × ((e : GossipEntry)
          → request_repair pull ps topic seq ≡ some e
          → (p : P) × (before after : List P) × (ps ≡ before ++ p ∷ after)
            × (pull p topic seq ≡ found e))
unfolding request_repair
request_repair_lem pull [] topic seq = (λ h. tt, λ e h. cc)
request_repair_lem pull (p ∷ ps) topic seq =
    let (nobody, somebody) = request_repair_lem pull ps topic seq in
    elim (PullResult-cases (pull p topic seq)) [
      | inl (inl e) ↦
          rw (e, request_repair)
            (
              λ h. ((λ x same. cc), nobody h),
              λ x h.
                  let (q, before, after, split, answer) = somebody x h in
                  (q, p ∷ before, after, ap (◌∷◌ p) split, answer),
            )
      | inl (inr e) ↦
          rw (e, request_repair)
            (
              λ h. ((λ x same. cc), nobody h),
              λ x h.
                  let (q, before, after, split, answer) = somebody x h in
                  (q, p ∷ before, after, ap (◌∷◌ p) split, answer),
            )
      | inr (y, e) ↦ rw (e, request_repair) (λ h. cc, λ x h. (p, [], ps, refl, e ∙ cc))
    ]

-- Without a result no peer found the entry.
pub request_repair-none {ℓ} :
    {P : Type ℓ} (pull : P → ℕ → ℕ → PullResult) (ps : List P) (topic seq : ℕ)
    → request_repair pull ps topic seq ≡ none
    → All (λ p. (e : GossipEntry) → pull p topic seq ≢ found e) ps
request_repair-none pull ps topic seq = (request_repair_lem pull ps topic seq).0

-- A result is what some peer answered.
pub request_repair-some {ℓ} :
    {P : Type ℓ} (pull : P → ℕ → ℕ → PullResult) (ps : List P) (topic seq : ℕ) (e : GossipEntry)
    → request_repair pull ps topic seq ≡ some e
    → (p : P) × (before after : List P) × (ps ≡ before ++ p ∷ after) × (pull p topic seq ≡ found e)
request_repair-some pull ps topic seq e h = (request_repair_lem pull ps topic seq).1 e h
