-- ===== src/Postings/VarintRoundTrip.antt =====
-- Reading back what `binary.PutUvarint` wrote.
use native.Mathlib.Nat.{pow-suc, div-add-mod}
use native.Mathlib.Numerals.{towards_suc}
use s3search.Base.{ℕ, zero, suc, ◌+◌, ◌*◌, ◌/◌, ◌%◌, ◌^◌, ◌<◌, ◌≤◌, ◌≡◌, ap, ◌∙◌, arith, Bytes, []}
use s3search.Base.{◌∷◌, ◌++◌, IsU64, Option, some, length, lt→ltb, le→ltb_false}
use native.Mathlib.Decide.{dec_lt}
use s3search.Postings.Varint.{put_uvarint_loop, put_uvarint, uvarint_loop, uvarint}

shift_seven : (s : ℕ) → 2 ^ (7 * (s + 1)) ≡ 128 * 2 ^ (7 * s)
shift_seven s = ap (λ (t : ℕ). 2 ^ t) split ∙ simp towards_suc (omega arith)
  where
    split : 7 * (s + 1) ≡ 7 * s + 7
    split = omega arith

last_byte :
    (w i x : ℕ) (rest : Bytes)
    → w < 128
    → i ≤ 9
    → (i ≡ 9 → w ≤ 1)
    → x + w * 2 ^ (7 * i) < 2 ^ 64
    → uvarint_loop i x (w ∷ rest) ≡ some (x + w * 2 ^ (7 * i), rest)
unfolding uvarint_loop
last_byte w i x rest small h last fits = ground arith

inner_byte :
    (g i x : ℕ) (rest : Bytes)
    → g < 128
    → i < 9
    → x + g * 2 ^ (7 * i) < 2 ^ 64
    → uvarint_loop i x ((g + 128) ∷ rest) ≡ uvarint_loop (i + 1) (x + g * 2 ^ (7 * i)) rest
unfolding uvarint_loop
inner_byte g i x rest small h fits = ground (arith, low)
  where
    low : (g + 128) % 128 ≡ g
    low = omega arith

-- The lowest group of `v` and the others, from bit 7 * i on.
split_group : (v i : ℕ) → v * 2 ^ (7 * i) ≡ v % 128 * 2 ^ (7 * i) + v / 128 * 2 ^ (7 * (i + 1))
split_group v i = omega (
  arith,
  ap (λ (t : ℕ). t * 2 ^ (7 * i)) (div-add-mod v 128),
  ap (λ (t : ℕ). v / 128 * t) (shift_seven i),
)

-- `v` is what is still to be read, and counts from bit 7 * i on.
uvarint_loop-put :
    (k v i x : ℕ) (rest : Bytes)
    → i + k ≡ 9
    → v < 2 * 128 ^ k
    → x + v * 2 ^ (7 * i) < 2 ^ 64
    → uvarint_loop i x (put_uvarint_loop k v ++ rest) ≡ some (x + v * 2 ^ (7 * i), rest)
unfolding put_uvarint_loop
uvarint_loop-put zero v i x rest e small fits =
    rw one (last_byte v i x rest (omega arith) (omega arith) (λ _. omega arith) fits)
  where
    one : v % 256 ≡ v
    one = omega arith
uvarint_loop-put (suc k) v i x rest e small fits = elim (dec_lt v 128) [
  | yes last ↦
      rw (lt→ltb v 128 last)
        (last_byte v i x rest last (omega arith) (λ nine. absurd (omega arith)) fits)
  | no more ↦ rw (le→ltb_false v 128 (omega arith)) (
      inner_byte (v % 128) i x (put_uvarint_loop k (v / 128) ++ rest) (omega arith) (omega arith)
        (omega (arith, split_group v i))
      ∙ uvarint_loop-put k (v / 128) (i + 1) (x + v % 128 * 2 ^ (7 * i)) rest (omega arith)
          (omega (arith, pow-suc 128 k)) (omega (arith, split_group v i))
      ∙ ap (λ (t : ℕ). some (t, rest)) (omega (arith, split_group v i)))
]

-- `Uvarint` reads the uint64 that `PutUvarint` wrote, and leaves what follows it.
pub uvarint-put_uvarint :
    (v : ℕ) (rest : Bytes) → IsU64 v → uvarint (put_uvarint v ++ rest) ≡ some (v, rest)
unfolding uvarint put_uvarint
uvarint-put_uvarint v rest h =
    rw same (uvarint_loop-put 9 v 0 0 rest (omega arith) (omega arith) (omega arith) ∙ whole)
  where
    same : v % 2 ^ 64 ≡ v
    same = omega arith

    whole : ◌≡◌ {A = Option (ℕ × Bytes)} (some (0 + v * 2 ^ (7 * 0), rest)) (some (v, rest))
    whole = ap (λ (t : ℕ). some (t, rest)) (omega arith)

-- What is left is shorter than what was read from.
uvarint_loop_shorter :
    (bytes : Bytes) (i x v : ℕ) (rest : Bytes)
    → uvarint_loop i x bytes ≡ some (v, rest)
    → length rest < length bytes
unfolding uvarint_loop
uvarint_loop_shorter [] i x v rest e = cc
uvarint_loop_shorter (b ∷ bytes) i x v rest e =
    ground (arith, uvarint_loop_shorter bytes (i + 1) ((x + b % 128 * 2 ^ (7 * i)) % 2 ^ 64) v rest)

pub uvarint_shorter :
    (bytes : Bytes) (v : ℕ) (rest : Bytes)
    → uvarint bytes ≡ some (v, rest)
    → length rest < length bytes
unfolding uvarint
uvarint_shorter bytes v rest e = uvarint_loop_shorter bytes 0 0 v rest e
