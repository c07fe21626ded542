-- ===== src/Seen/Examples.antt =====
-- The duplicate filter at a concrete tracker, and two callers that race.
use gossip_mesh.Base.{ℕ, refl, arith, List, [], ◌∷◌, ◌==◌, if◌then◌else◌}
use gossip_mesh.Seen.{TopicSeq, SeenTracker, is_active}
use gossip_mesh.Seen.Marks.{IsTracked}
use gossip_mesh.Seen.Race.{Accepted, thread_step, race_step, race_run, race_start, race_run_unique}

-- Topic 3 has the mark 7.
abbrev one_topic : SeenTracker
one_topic = record { slot_seqs = λ t. if t == 3 then 7 else 0; active_slots = 3 ∷ [] }

one_topic-IsTracked : IsTracked one_topic
unfolding is_active
one_topic-IsTracked t p = ground arith

-- Every caller has number 9 of topic 3.
abbrev same_call : ℕ → TopicSeq
same_call i = record { topic = 3; seq = 9 }

-- Both load before either swaps.
abbrev schedule : List ℕ
schedule = 0 ∷ 1 ∷ 0 ∷ 1 ∷ 1 ∷ []

race_first : Accepted ((race_run same_call (race_start one_topic) schedule).pcs 0)
unfolding race_run race_step thread_step race_start
race_first = refl

race_run_unique_example : ¬ Accepted ((race_run same_call (race_start one_topic) schedule).pcs 1)
race_run_unique_example =
    race_run_unique same_call one_topic schedule 0 1 (λ e. omega (arith, e)) refl race_first
