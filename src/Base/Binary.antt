-- ===== src/Base/Binary.antt =====
-- Byte strings, and the little-endian words of encoding/binary.
use Prim.Native.Nat.{ℕ, zero, suc, ◌+◌, ◌*◌, ◌/◌, ◌%◌, ◌^◌, ◌<◌, ◌≤◌}
use mathlib.Core.Path.{◌≡◌, refl, ap, ◌∙◌}
use mathlib.Core.List.{List, [], ◌∷◌, ◌++◌}
use native.Mathlib.Omega.{arith}
use native.Mathlib.Nat.{pow-suc}
use s3search.Base.Lists.{length, take, drop, take-append, drop-append, length-take, All}

abbrev pub Bytes : Type 0
Bytes = List ℕ

abbrev pub IsByte : ℕ → Type 0
IsByte b = b < 256

abbrev pub IsU32 : ℕ → Type 0
IsU32 v = v < 2 ^ 32

abbrev pub IsU64 : ℕ → Type 0
IsU64 v = v < 2 ^ 64

-- The `k` low bytes of `v`, lowest first: `PutUint32` is `to_le 4`, `PutUint64` is `to_le 8`.
unfoldable pub to_le : ℕ → ℕ → Bytes
to_le zero v = []
to_le (suc k) v = v % 256 ∷ to_le k (v / 256)

unfoldable pub from_le : Bytes → ℕ
from_le [] = 0
from_le (b ∷ bs) = b + 256 * from_le bs

pub length-to_le : (k v : ℕ) → length (to_le k v) ≡ k
unfolding to_le
length-to_le zero v = refl
length-to_le (suc k) v = ap suc (length-to_le k (v / 256))

pub to_le-IsByte : (k v : ℕ) → All IsByte (to_le k v)
unfolding to_le
to_le-IsByte zero v = tt
to_le-IsByte (suc k) v = (omega arith, to_le-IsByte k (v / 256))

pub from_le-to_le : (k v : ℕ) → v < 256 ^ k → from_le (to_le k v) ≡ v
unfolding from_le to_le
from_le-to_le zero v h = omega arith
from_le-to_le (suc k) v h = omega (arith, from_le-to_le k (v / 256) (omega (arith, pow-suc 256 k)))

pub take-to_le : (k v : ℕ) (rest : Bytes) → take k (to_le k v ++ rest) ≡ to_le k v
take-to_le k v rest = take-append k (to_le k v) rest (length-to_le k v)

pub drop-to_le : (k v : ℕ) (rest : Bytes) → drop k (to_le k v ++ rest) ≡ rest
drop-to_le k v rest = drop-append k (to_le k v) rest (length-to_le k v)

-- The other way round, on bytes.
pub to_le-from_le : (bs : Bytes) → All IsByte bs → to_le (length bs) (from_le bs) ≡ bs
unfolding from_le to_le
to_le-from_le [] h = refl
to_le-from_le (b ∷ bs) (hb, h) = cc (low, high, to_le-from_le bs h)
  where
    low : (b + 256 * from_le bs) % 256 ≡ b
    low = omega arith

    high : (b + 256 * from_le bs) / 256 ≡ from_le bs
    high = omega arith

pub All-take : (n : ℕ) (bs : Bytes) → All IsByte bs → All IsByte (take n bs)
All-take zero bs h = tt
All-take (suc n) [] h = tt
All-take (suc n) (b ∷ bs) (hb, h) = (hb, All-take n bs h)

pub All-drop : (n : ℕ) (bs : Bytes) → All IsByte bs → All IsByte (drop n bs)
All-drop zero bs h = h
All-drop (suc n) [] h = tt
All-drop (suc n) (b ∷ bs) (hb, h) = All-drop n bs h

pub from_le-lt : (bs : Bytes) → All IsByte bs → from_le bs < 256 ^ length bs
unfolding from_le
from_le-lt [] h = omega arith
from_le-lt (b ∷ bs) (hb, h) = omega (arith, from_le-lt bs h, pow-suc 256 (length bs))

-- The first word of a byte string, put back.
pub to_le-take :
    (k : ℕ) (bs : Bytes) → All IsByte bs → k ≤ length bs → to_le k (from_le (take k bs)) ≡ take k bs
to_le-take k bs h long =
    ap (λ n. to_le n (from_le (take k bs))) size ∙ to_le-from_le (take k bs) (All-take k bs h)
  where
    size : k ≡ length (take k bs)
    size = omega (arith, length-take k bs)

pub from_le-take-lt :
    (k : ℕ) (bs : Bytes) → All IsByte bs → k ≤ length bs → from_le (take k bs) < 256 ^ k
from_le-take-lt k bs h long = rw size at (from_le-lt (take k bs) (All-take k bs h))
  where
    size : length (take k bs) ≡ k
    size = omega (arith, length-take k bs)
