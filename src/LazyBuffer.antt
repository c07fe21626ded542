-- ===== src/LazyBuffer.antt =====
-- LazyBuffer of engine/batch.go: what waits for one lazy peer. The map of the peer's high-water marks
-- reads 0 at a missing key, so it is a function.
use gossip_mesh.Base.{
  ℕ, ◌≤◌, ◌≡◌, refl, arith, List, [], ◌∷◌, ◌++◌, length, ltb, le→ltb, subst, ◌∙◌, if◌then◌else◌,
  All, Any, inl, inr,
}
use gossip_mesh.Seen.{TopicSeq, store}
use gossip_mesh.Wire.Entry.{GossipEntry}

pub record LazyBuffer : Type 0 where
  pub entries : List GossipEntry
  pub peer_seqs : ℕ → ℕ

pub new_lazy_buffer : LazyBuffer
new_lazy_buffer = record { entries = []; peer_seqs = λ t. 0 }

unfoldable pub add : LazyBuffer → GossipEntry → LazyBuffer
add b e = if ltb (b.peer_seqs e.topic) e.seq then record b { entries = b.entries ++ e ∷ [] } else b

unfoldable pub flush : LazyBuffer → List GossipEntry × LazyBuffer
flush b = (b.entries, record b { entries = [] })

unfoldable pub len : LazyBuffer → ℕ
len b = length b.entries

unfoldable pub update_peer_seqs : LazyBuffer → List TopicSeq → LazyBuffer
update_peer_seqs b [] = b
update_peer_seqs b (m ∷ ms) =
    update_peer_seqs
      (if ltb (b.peer_seqs m.topic) m.seq
        then record b { peer_seqs = store b.peer_seqs m.topic m.seq }
        else b)
      ms

update_one :
    (b : LazyBuffer) (m : TopicSeq) (t : ℕ)
    → let b' =
        (if ltb (b.peer_seqs m.topic) m.seq
          then record b { peer_seqs = store b.peer_seqs m.topic m.seq }
          else b) in
      (b'.entries ≡ b.entries) × (b.peer_seqs t ≤ b'.peer_seqs t) × (m.seq ≤ b'.peer_seqs m.topic)
update_one b m t = (ground arith, ground arith, ground arith)

-- An update keeps what is buffered, lowers no mark, and raises each reported topic's mark to at least
-- the reported one.
pub update_peer_seqs_lem :
    (b : LazyBuffer) (ms : List TopicSeq)
    → ((update_peer_seqs b ms).entries ≡ b.entries)
      × ((t : ℕ) → b.peer_seqs t ≤ (update_peer_seqs b ms).peer_seqs t)
      × All (λ m. m.seq ≤ (update_peer_seqs b ms).peer_seqs m.topic) ms
unfolding update_peer_seqs
update_peer_seqs_lem b [] = (refl, λ t. omega arith, tt)
update_peer_seqs_lem b (m ∷ ms) =
    let b' =
      (if ltb (b.peer_seqs m.topic) m.seq
        then record b { peer_seqs = store b.peer_seqs m.topic m.seq }
        else b) in
    let (same, up, reported) = update_peer_seqs_lem b' ms in
    (
      same ∙ (update_one b m 0).0,
      λ t. omega (arith, up t, (update_one b m t).1),
      (omega (arith, up m.topic, (update_one b m 0).2), reported),
    )

-- After an update, adding an entry at or below a mark that was reported for its topic leaves the
-- buffer as it is.
pub add-update_peer_seqs :
    (b : LazyBuffer) (ms : List TopicSeq) (e : GossipEntry)
    → Any (λ m. (m.topic ≡ e.topic) × (e.seq ≤ m.seq)) ms
    → add (update_peer_seqs b ms) e ≡ update_peer_seqs b ms
unfolding add
add-update_peer_seqs b ms e known =
    let b' = update_peer_seqs b ms in
    rw (le→ltb (b'.peer_seqs e.topic) e.seq (covered ms (update_peer_seqs_lem b ms).2 known))
  where
    covered :
        (xs : List TopicSeq)
        → All (λ m. m.seq ≤ (update_peer_seqs b ms).peer_seqs m.topic) xs
        → Any (λ m. (m.topic ≡ e.topic) × (e.seq ≤ m.seq)) xs
        → e.seq ≤ (update_peer_seqs b ms).peer_seqs e.topic
    covered [] a k = elim k [ ]
    covered (x ∷ xs) a (inl (same, le)) =
        omega (arith, le, subst (λ t. x.seq ≤ (update_peer_seqs b ms).peer_seqs t) same a.0)
    covered (x ∷ xs) a (inr k) = covered xs a.1 k
