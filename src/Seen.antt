-- ===== src/Seen.antt =====
-- engine/seen.go: the duplicate filter, a high-water mark for each topic. `slot_seqs` is the array of
-- 65536 atomic words as a function of the topic, `active_slots` the set of topics in the order in
-- which a range statement meets them; Go leaves that order open, so the statements are about
-- membership only. Here each method runs alone; Seen/Race interleaves the callers.
pub mod Marks
pub mod Race
pub mod Alone
mod Examples
use gossip_mesh.Base.{
  ℕ, ◌<◌, ◌≤◌, ◌≡◌, Bool, true, false, List, [], ◌∷◌, ◌++◌, map, leb, ltb, ◌==◌, if◌then◌else◌,
  ◌||◌,
}

pub record TopicSeq : Type 0 where
  pub topic : ℕ
  pub seq : ℕ

pub record SeenTracker : Type 0 where
  pub slot_seqs : ℕ → ℕ
  pub active_slots : List ℕ

unfoldable pub empty : SeenTracker
empty = record { slot_seqs = λ t. 0; active_slots = [] }

-- A store to one word of the array.
abbrev pub store : (ℕ → ℕ) → ℕ → ℕ → ℕ → ℕ
store f t v u = if u == t then v else f u

pub is_active : ℕ → List ℕ → Bool
is_active t [] = false
is_active t (u ∷ us) = u == t || is_active t us

pub mark_active : SeenTracker → ℕ → SeenTracker
unfolding is_active
mark_active s t =
    if is_active t s.active_slots then s else record s { active_slots = s.active_slots ++ t ∷ [] }

-- The new tracker, and whether the entry is to be processed.
unfoldable pub should_process : SeenTracker → ℕ → ℕ → SeenTracker × Bool
unfolding mark_active
should_process s t seq =
    let old : ℕ = s.slot_seqs t in
    let swapped : SeenTracker = record s { slot_seqs = store s.slot_seqs t seq } in
    if leb seq old
    then (s, false)
    else if old == 0
    then (mark_active swapped t, true)
    else (swapped, true)

pub current_seq : SeenTracker → ℕ → ℕ
current_seq s t = s.slot_seqs t

marks_of : (ℕ → ℕ) → List ℕ → List TopicSeq
marks_of f [] = []
marks_of f (t ∷ ts) =
    if ltb 0 (f t) then record { topic = t; seq = f t } ∷ marks_of f ts else marks_of f ts

unfoldable pub high_water_marks : SeenTracker → List TopicSeq
unfolding marks_of
high_water_marks s = marks_of s.slot_seqs s.active_slots

unfoldable pub set_topic_seq : SeenTracker → ℕ → ℕ → SeenTracker
unfolding mark_active
set_topic_seq s t seq =
    let stored : SeenTracker = record s { slot_seqs = store s.slot_seqs t seq } in
    if ltb 0 seq then mark_active stored t else stored
