-- ===== src/Seen/Alone.antt =====
-- A caller of ShouldProcess that no other interrupts (engine/seen.go).
use gossip_mesh.Base.{ℕ, zero, suc, ◌≡◌, arith}
use gossip_mesh.Seen.{TopicSeq, SeenTracker, should_process}
use gossip_mesh.Seen.Race.{Pc, starting, returned, thread_step}

-- The steps of a caller that no other interrupts.
pub alone : ℕ → TopicSeq → SeenTracker × Pc → SeenTracker × Pc
alone zero c (s, pc) = (s, pc)
alone (suc n) c (s, pc) = alone n c (thread_step c s pc)

-- A caller that no other interrupts returns within five steps what `should_process` returns, and
-- leaves the tracker that it leaves.
pub alone-should_process :
    (c : TopicSeq) (s : SeenTracker)
    → alone 5 c (s, starting)
      ≡ ((should_process s c.topic c.seq).0, returned (should_process s c.topic c.seq).1)
unfolding alone thread_step should_process
alone-should_process c s = ground arith
