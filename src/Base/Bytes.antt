-- ===== src/Base/Bytes.antt =====
-- encoding/binary's big-endian integers.
use Prim.Native.Nat.{ℕ, zero, suc, ◌+◌, ◌*◌, ◌/◌, ◌%◌, ◌^◌, ◌≤◌, ◌<◌}
use mathlib.Core.Path.{◌≡◌, refl, sym, ap, subst, ◌∙◌}
use mathlib.Core.List.{List, [], ◌∷◌, ◌++◌}
use native.Mathlib.Omega.{arith}
use native.Mathlib.Nat.{pow-suc}
use gossip_mesh.Base.Lists.{
  length, All, take, drop, length-append, take-append, drop-append, All-append, All-take,
  length-take,
}

abbrev pub IsByte : ℕ → Type 0
IsByte b = b < 256

-- The value of bytes read in order, after `acc`.
pub be_value : ℕ → List ℕ → ℕ
be_value acc [] = acc
be_value acc (b ∷ bs) = be_value (acc * 256 + b) bs

-- binary.BigEndian.AppendUint16, 32 and 64 at the widths 2, 4 and 8.
unfoldable pub put_be : ℕ → ℕ → List ℕ
put_be zero v = []
put_be (suc n) v = put_be n (v / 256) ++ (v % 256) ∷ []

-- binary.BigEndian.Uint16, 32 and 64: the first bytes of a slice.
unfoldable pub get_be : ℕ → List ℕ → ℕ
unfolding be_value
get_be n bs = be_value 0 (take n bs)

be_value-append :
    (acc : ℕ) (xs : List ℕ) (b : ℕ) → be_value acc (xs ++ b ∷ []) ≡ be_value acc xs * 256 + b
unfolding be_value
be_value-append acc [] b = refl
be_value-append acc (x ∷ xs) b = be_value-append (acc * 256 + x) xs b

pub length-put_be : (n v : ℕ) → length (put_be n v) ≡ n
unfolding put_be
length-put_be zero v = refl
length-put_be (suc n) v =
    omega (arith, length-append (put_be n (v / 256)) ((v % 256) ∷ []), length-put_be n (v / 256))

pub put_be-IsByte : (n v : ℕ) → All IsByte (put_be n v)
unfolding put_be
put_be-IsByte zero v = tt
put_be-IsByte (suc n) v =
    All-append IsByte (put_be n (v / 256)) _ (put_be-IsByte n (v / 256)) (omega arith, tt)

be_value-put_be : (n v : ℕ) → v < 256 ^ n → be_value 0 (put_be n v) ≡ v
unfolding put_be be_value
be_value-put_be zero v h = omega arith
be_value-put_be (suc n) v h =
    rw
      (
        be_value-append 0 (put_be n (v / 256)) (v % 256),
        be_value-put_be n (v / 256) (omega (arith, pow-suc 256 n)),
      )
      (omega arith)

-- What was put is got, whatever follows it.
pub get_be-put_be : (n v : ℕ) (rest : List ℕ) → v < 256 ^ n → get_be n (put_be n v ++ rest) ≡ v
unfolding get_be
get_be-put_be n v rest h =
    ap (be_value 0) (
      ap (λ k. take k (put_be n v ++ rest)) (sym (length-put_be n v))
      ∙ take-append (put_be n v) rest)
    ∙ be_value-put_be n v h

pub drop-put_be : (n v : ℕ) (rest : List ℕ) → drop n (put_be n v ++ rest) ≡ rest
drop-put_be n v rest =
    ap (λ k. drop k (put_be n v ++ rest)) (sym (length-put_be n v)) ∙ drop-append (put_be n v) rest

be_value-lt :
    (acc m : ℕ) (xs : List ℕ) → acc < m → All IsByte xs → be_value acc xs < m * 256 ^ length xs
unfolding be_value
be_value-lt acc m [] h a = omega arith
be_value-lt acc m (x ∷ xs) h a =
    rw (pow-suc 256 (length xs))
      (omega (arith, be_value-lt (acc * 256 + x) (m * 256) xs (omega (arith, a.0)) a.1))

pub get_be-lt : (n : ℕ) (bs : List ℕ) → All IsByte bs → n ≤ length bs → get_be n bs < 256 ^ n
unfolding get_be
get_be-lt n bs a h =
    let width : length (take n bs) ≡ n = omega (arith, length-take n bs) in
    subst (λ k. be_value 0 (take n bs) < 256 ^ k) width
      (omega (arith, be_value-lt 0 1 (take n bs) (omega arith) (All-take IsByte n bs a)))
