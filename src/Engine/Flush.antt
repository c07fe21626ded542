-- ===== src/Engine/Flush.antt =====
-- What flushLazyBatches sends, and what it leaves (engine/engine.go).
use Prim.Native.String.{String}
use text.Mathlib.Text.{◌==◌ as str_eq}
use text.Mathlib.TextEquality.{eq_iff}
use gossip_mesh.Base.{
  ◌==◌, ◌≡◌, ◌≢◌, refl, ap, ◌∙◌, arith, Bool, true, false, ◌||◌, List, [], ◌∷◌, length, inl, inr,
  All, if◌then◌else◌, Bool-cases,
}
use gossip_mesh.Base.Table.{string_key, insert}
use gossip_mesh.Seen.{TopicSeq, high_water_marks}
use gossip_mesh.LazyBuffer.{LazyBuffer, flush, len}
use gossip_mesh.Overlay.{OverlayPeer}
use gossip_mesh.Wire.Entry.{GossipEntry}
use gossip_mesh.Engine.State.{GossipEngine}
use gossip_mesh.Engine.Forward.{buffer_of, PeerBatch, flush_to, flush_lazy_batches}
use gossip_mesh.Engine.Fanout.{buffer_of-insert}

-- What waits for a peer.
abbrev pub waiting : List (String × LazyBuffer) → String → List GossipEntry
waiting bufs id = (buffer_of bufs id).entries

abbrev pub batch_for : List TopicSeq → List GossipEntry → OverlayPeer → PeerBatch
batch_for marks entries p = record {
  addr = p.addr;
  batch = record { entries = entries; sender_high_water_marks = marks };
}

-- The reference: one batch with all that waits, for each peer for which something waits.
abbrev pub batches_for :
    List TopicSeq → (String → List GossipEntry) → List OverlayPeer → List PeerBatch
batches_for marks w [] = []
batches_for marks w (p ∷ ps) =
    if length (w p.node_id) == 0
    then batches_for marks w ps
    else batch_for marks (w p.node_id) p ∷ batches_for marks w ps

abbrev pub is_peer : String → List OverlayPeer → Bool
is_peer id [] = false
is_peer id (p ∷ ps) = str_eq p.node_id id || is_peer id ps

-- No two of the peers have one node id.
abbrev pub DistinctPeers : List OverlayPeer → Type 0
DistinctPeers [] = Unit
DistinctPeers (p ∷ ps) = All (λ (q : OverlayPeer). p.node_id ≢ q.node_id) ps × DistinctPeers ps

abbrev emptied : List (String × LazyBuffer) → String → List (String × LazyBuffer)
emptied bufs id = insert id (flush (buffer_of bufs id)).1 bufs

waiting-emptied :
    (bufs : List (String × LazyBuffer)) (id j : String)
    → waiting (emptied bufs id) j ≡ (if str_eq id j then [] else waiting bufs j)
unfolding flush
waiting-emptied bufs id j =
    ap (λ (b : LazyBuffer). b.entries) (buffer_of-insert bufs id j (flush (buffer_of bufs id)).1)
    ∙ ground arith

batches_for_same :
    (marks : List TopicSeq) (w w' : String → List GossipEntry) (ps : List OverlayPeer)
    → All (λ (q : OverlayPeer). w' q.node_id ≡ w q.node_id) ps
    → batches_for marks w' ps ≡ batches_for marks w ps
batches_for_same marks w w' [] a = refl
batches_for_same marks w w' (p ∷ ps) a = rw (a.0, batches_for_same marks w w' ps a.1) refl

others_wait :
    (bufs : List (String × LazyBuffer)) (id : String) (ps : List OverlayPeer)
    → All (λ (q : OverlayPeer). id ≢ q.node_id) ps
    → All (λ (q : OverlayPeer). waiting (emptied bufs id) q.node_id ≡ waiting bufs q.node_id) ps
others_wait bufs id [] a = tt
others_wait bufs id (q ∷ ps) a = (
  waiting-emptied bufs id q.node_id ∙ ground (arith, eq_iff id q.node_id, a.0),
  others_wait bufs id ps a.1,
)

nothing_left : (xs : List GossipEntry) → (length xs == 0) ≡ true → xs ≡ []
nothing_left [] e = refl
nothing_left (x ∷ xs) e = absurd (ground arith)

flush_to_left :
    (marks : List TopicSeq) (bufs : List (String × LazyBuffer)) (ps : List OverlayPeer)
    (id : String)
    → waiting (flush_to marks bufs ps).0 id ≡ (if is_peer id ps then [] else waiting bufs id)
unfolding flush_to len flush
flush_to_left marks bufs [] id = refl
flush_to_left marks bufs (p ∷ ps) id = elim (Bool-cases (length (waiting bufs p.node_id) == 0)) [
  | inl e ↦
      rw (e, flush_to)
        (flush_to_left marks bufs ps id
          ∙ ground (arith, eq_iff p.node_id id, nothing_left (waiting bufs p.node_id) e))
  | inr e ↦
      rw (e, flush_to)
        (flush_to_left marks (emptied bufs p.node_id) ps id
          ∙ ground (arith, waiting-emptied bufs p.node_id id))
]

flush_to_batches :
    (marks : List TopicSeq) (bufs : List (String × LazyBuffer)) (ps : List OverlayPeer)
    → DistinctPeers ps
    → (flush_to marks bufs ps).1 ≡ batches_for marks (waiting bufs) ps
unfolding flush_to len flush
flush_to_batches marks bufs [] d = refl
flush_to_batches marks bufs (p ∷ ps) d = elim (Bool-cases (length (waiting bufs p.node_id) == 0)) [
  | inl e ↦ rw (e, flush_to) (flush_to_batches marks bufs ps d.1)
  | inr e ↦
      rw (e, flush_to)
        (ap (λ bs. batch_for marks (waiting bufs p.node_id) p ∷ bs)
          (flush_to_batches marks (emptied bufs p.node_id) ps d.1
            ∙ batches_for_same marks (waiting bufs) (waiting (emptied bufs p.node_id)) ps
                (others_wait bufs p.node_id ps d.0)))
]

-- If no two lazy peers have one node id, a flush makes the batches of the reference: one for each lazy peer
-- for which entries wait, with all of them and the filter's high-water marks, in the order of the peers.
-- Afterwards nothing waits for a lazy peer, and for any other node what waited before.
pub flush_lazy_batches_lem :
    (g : GossipEngine) (id : String)
    → DistinctPeers g.overlay.lazy_peers
    → let (g', batches) = flush_lazy_batches g in
      (batches
        ≡ batches_for (high_water_marks g.seen) (waiting g.lazy_buffers) g.overlay.lazy_peers)
      × (waiting g'.lazy_buffers id
          ≡ (if is_peer id g.overlay.lazy_peers then [] else waiting g.lazy_buffers id))
unfolding flush_lazy_batches
flush_lazy_batches_lem g id distinct = (
  flush_to_batches (high_water_marks g.seen) g.lazy_buffers g.overlay.lazy_peers distinct,
  flush_to_left (high_water_marks g.seen) g.lazy_buffers g.overlay.lazy_peers id,
)
