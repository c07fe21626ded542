-- ===== src/Cluster/Wire.antt =====
-- What is on the wire between engines, and lists of it (engine/engine.go).
use Prim.Native.String.{String}
use gossip_mesh.Base.{
  ℕ, zero, suc, ◌+◌, ◌≤◌, ◌≡◌, refl, ap, subst, ◌∙◌, arith, Bool, true, ◌⊎◌, some, List, [], ◌∷◌,
  ◌++◌, map, length, drop, drop-append, ltb, keep_if, All, Any, Bool-cases, inl, inr,
}
use gossip_mesh.Overlay.{OverlayPeer}
use gossip_mesh.Wire.Entry.{GossipEntry, IsEntry}
use gossip_mesh.Wire.Eager.{encode_eager_message}
use gossip_mesh.Wire.Frame.Batches.{max_frame}
use gossip_mesh.Engine.State.{GossipEngine, Sent}
use gossip_mesh.Engine.Forward.{message_to, max_datagram_payload}
use gossip_mesh.Engine.Handlers.{World}
use gossip_mesh.Cluster.{destination, remove, nth, taken}

-- An entry within its types that fits a frame.
abbrev pub Fits : GossipEntry → Type 0
Fits e = IsEntry e × (length e.payload + 11 ≤ max_frame)

abbrev pub Encodes : GossipEntry → OverlayPeer → Sent → Type 0
Encodes e p m = m ≡ message_to (encode_eager_message e) p

-- The message goes to the address and has an entry of the topic with at least this number.
abbrev pub Carries : ℕ → ℕ → String → String × Sent → Type 0
Carries t n addr x =
    (e : GossipEntry) × (p : OverlayPeer) × Fits e
    × Encodes e p x.1
    × (p.addr ≡ addr)
    × (e.topic ≡ t)
    × (n ≤ e.seq)

abbrev pub IsPeer : OverlayPeer → List OverlayPeer → Type 0
IsPeer p ps = Any (λ q. q ≡ p) ps

pub destination-message_to :
    (msg : List ℕ) (p : OverlayPeer) → destination (message_to msg p) ≡ p.addr
destination-message_to msg p = elim (Bool-cases (ltb max_datagram_payload (length msg))) [
  | inl e ↦ rw e refl
  | inr e ↦ rw e refl
]

pub copies-Carries :
    (a : String) (e : GossipEntry) (p : OverlayPeer) (ps : List OverlayPeer)
    → Fits e
    → IsPeer p ps
    → Any
        (Carries e.topic e.seq p.addr)
        (map (λ (m : Sent). (a, m)) (map (message_to (encode_eager_message e)) ps))
copies-Carries a e p [] f there = elim there [ ]
copies-Carries a e p (q ∷ ps) f (inl here) =
    inl (e, q, f, refl, ap (λ (x : OverlayPeer). x.addr) here, refl, omega arith)
copies-Carries a e p (q ∷ ps) f (inr there) = inr (copies-Carries a e p ps f there)

pub copies-All :
    (P : String × Sent → Type 0) (a : String) (e : GossipEntry) (ps : List OverlayPeer)
    → ((p : OverlayPeer) → IsPeer p ps → P (a, message_to (encode_eager_message e) p))
    → All P (map (λ (m : Sent). (a, m)) (map (message_to (encode_eager_message e)) ps))
copies-All P a e [] f = tt
copies-All P a e (q ∷ ps) f = (f q (inl refl), copies-All P a e ps (λ p there. f p (inr there)))

keep_if-all : {A : Type 0} (f : A → Bool) (xs : List A) → ((x : A) → f x ≡ true) → keep_if f xs ≡ xs
keep_if-all f [] h = refl
keep_if-all f (x ∷ xs) h = rw (h x, keep_if) (ap (λ ys. x ∷ ys) (keep_if-all f xs h))

-- If no send fails, all that has been sent since is on the wire.
pub taken-sent :
    (w : World) (a : String) (g g' : GossipEngine) (xs : List Sent)
    → ((m : Sent) → w.link m ≡ true)
    → g'.sent ≡ g.sent ++ xs
    → taken w a g g' ≡ map (λ (m : Sent). (a, m)) xs
taken-sent w a g g' xs up e = ap (map (λ (m : Sent). (a, m))) (
    keep_if-all w.link (drop (length g.sent) g'.sent) up
    ∙ ap (drop (length g.sent)) e
    ∙ drop-append g.sent xs)

pub Any-remove :
    (P : String × Sent → Type 0) (xs : List (String × Sent)) (n : ℕ) (x : String × Sent)
    → nth xs n ≡ some x
    → Any P xs
    → Any P (remove xs n) ⊎ P x
Any-remove P [] n x e a = elim a [ ]
Any-remove P (y ∷ ys) zero x e (inl here) = inr (subst P (same y x e) here)
  where
    same : (u v : String × Sent) → some u ≡ some v → u ≡ v
    same u v q = cc q
Any-remove P (y ∷ ys) zero x e (inr later) = inl later
Any-remove P (y ∷ ys) (suc n) x e (inl here) = inl (inl here)
Any-remove P (y ∷ ys) (suc n) x e (inr later) = elim (Any-remove P ys n x e later) [
  | inl kept ↦ inl (inr kept)
  | inr mine ↦ inr mine
]

pub All-remove :
    (P : String × Sent → Type 0) (xs : List (String × Sent)) (n : ℕ)
    → All P xs
    → All P (remove xs n)
All-remove P [] n a = tt
All-remove P (y ∷ ys) zero a = a.1
All-remove P (y ∷ ys) (suc n) a = (a.0, All-remove P ys n a.1)

pub nth-All :
    (P : String × Sent → Type 0) (xs : List (String × Sent)) (n : ℕ) (x : String × Sent)
    → nth xs n ≡ some x
    → All P xs
    → P x
nth-All P [] n x e a = cc e
nth-All P (y ∷ ys) zero x e a = subst P (same y x e) a.0
  where
    same : (u v : String × Sent) → some u ≡ some v → u ≡ v
    same u v q = cc q
nth-All P (y ∷ ys) (suc n) x e a = nth-All P ys n x e a.1
