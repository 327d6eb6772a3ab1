-- ===== src/Manifest/KeyOrder.antt =====
-- The keys of pkg/index/manifest.go sort by version as long as the version has six digits.
use native.Mathlib.Nat.{pow-suc}
use native.Mathlib.Decide.{dec_lt}
use s3search.Base.{
  ℕ, zero, suc, ◌+◌, ◌-◌, ◌/◌, ◌%◌, ◌^◌, ◌<◌, ◌≤◌, ◌≡◌, ◌≢◌, refl, sym, ap, ◌∙◌, arith,
}
use s3search.Base.{Bytes, [], ◌∷◌, ◌++◌, append_assoc, length, length-append, replicate}
use s3search.Base.{true, false, bytes_leb, bytes_leb_refl, bytes_leb-front, lt→ltb, le→ltb_false}
use s3search.Manifest.Key.{
  decimal_loop, decimal, pad_six, json_suffix, manifest_prefix, manifest_key,
}

-- the `k` low decimal digits
digits : ℕ → ℕ → Bytes
digits zero v = []
digits (suc k) v = digits k (v / 10) ++ (v % 10 + 48) ∷ []

digits-suc : (k v : ℕ) → digits (suc k) v ≡ digits k (v / 10) ++ (v % 10 + 48) ∷ []
unfolding digits
digits-suc k v = refl

first_less :
    (a b : ℕ) (s t : Bytes)
    → a < b
    → (bytes_leb (a ∷ s) (b ∷ t) ≡ true) × (bytes_leb (b ∷ t) (a ∷ s) ≡ false)
unfolding bytes_leb
first_less a b s t h = ground arith

-- Of two numbers the smaller has the digits that come first, whatever follows them.
digits_order :
    (k u v : ℕ) (s t : Bytes)
    → u < v
    → v < 10 ^ k
    → (bytes_leb (digits k u ++ s) (digits k v ++ t) ≡ true)
      × (bytes_leb (digits k v ++ t) (digits k u ++ s) ≡ false)
unfolding digits
digits_order zero u v s t h b = absurd (omega arith)
digits_order (suc k) u v s t h b =
    rw (append_assoc (digits k (u / 10)), append_assoc (digits k (v / 10)))
      (elim (dec_lt (u / 10) (v / 10)) [
        | yes less ↦
            digits_order k (u / 10) (v / 10) ((u % 10 + 48) ∷ s) ((v % 10 + 48) ∷ t) less
              (omega (arith, pow-suc 10 k))
        | no same ↦ last_digit (omega arith)
      ])
  where
    last_digit :
        u / 10 ≡ v / 10
        → (bytes_leb
              (digits k (u / 10) ++ (u % 10 + 48) ∷ s)
              (digits k (v / 10) ++ (v % 10 + 48) ∷ t)
            ≡ true)
          × (bytes_leb
                (digits k (v / 10) ++ (v % 10 + 48) ∷ t)
                (digits k (u / 10) ++ (u % 10 + 48) ∷ s)
              ≡ false)
    last_digit e =
        rw (e, bytes_leb-front (digits k (v / 10)), bytes_leb-front (digits k (v / 10)))
          (first_less (u % 10 + 48) (v % 10 + 48) s t (omega arith))

replicate-snoc : (k a : ℕ) → replicate k a ++ a ∷ [] ≡ replicate (suc k) a
replicate-snoc zero a = refl
replicate-snoc (suc k) a = ap (λ l. a ∷ l) (replicate-snoc k a)

digits-zero : (k : ℕ) → digits k 0 ≡ replicate k 48
unfolding digits
digits-zero zero = refl
digits-zero (suc k) = ap (λ l. l ++ 48 ∷ []) (digits-zero k) ∙ replicate-snoc k 48

one_digit : (k v : ℕ) → v < 10 → replicate (suc k - 1) 48 ++ (v + 48) ∷ [] ≡ digits (suc k) v
unfolding digits
one_digit k v h = rw (zeros, high, low, digits-zero k)
  where
    zeros : suc k - 1 ≡ k
    zeros = omega arith

    high : v / 10 ≡ 0
    high = omega arith

    low : v % 10 ≡ v
    low = omega arith

-- With zeros in front the decimal digits of a number below 10 ^ (k + 1) are its k + 1 low digits.
padded :
    (k fuel v : ℕ)
    → v < 10 ^ suc k
    → k < fuel
    → (length (decimal_loop fuel v) ≤ suc k)
      × (replicate (suc k - length (decimal_loop fuel v)) 48 ++ decimal_loop fuel v
          ≡ digits (suc k) v)
unfolding decimal_loop
padded k zero v h f = absurd (omega arith)
padded zero (suc fuel) v h f = rw (lt→ltb v 10 h) (omega arith, one_digit 0 v h)
padded (suc k) (suc fuel) v h f = elim (dec_lt v 10) [
  | yes small ↦ rw (lt→ltb v 10 small) (omega arith, one_digit (suc k) v small)
  | no large ↦
      let (size, shape) =
        padded k fuel (v / 10) (omega (arith, pow-suc 10 (suc k))) (omega arith) in
      rw (le→ltb_false v 10 (omega arith), longer)
        (
          omega arith,
          rw fewer (
              sym (append_assoc (replicate (suc k - length (decimal_loop fuel (v / 10))) 48) _ _)
              ∙ ap (λ l. l ++ (v % 10 + 48) ∷ []) shape
              ∙ sym (digits-suc (suc k) v)),
        )
]
  where
    longer :
        length (decimal_loop fuel (v / 10) ++ (v % 10 + 48) ∷ [])
        ≡ length (decimal_loop fuel (v / 10)) + 1
    longer = length-append (decimal_loop fuel (v / 10)) ((v % 10 + 48) ∷ [])

    fewer :
        suc (suc k) - (length (decimal_loop fuel (v / 10)) + 1)
        ≡ suc k - length (decimal_loop fuel (v / 10))
    fewer = omega arith

pad_six-digits : (v : ℕ) → v < 10 ^ 6 → pad_six v ≡ digits 6 v
unfolding pad_six decimal
pad_six-digits v h = (padded 5 20 v h (omega arith)).1

-- Below a million the key of the earlier version is the smaller string, strictly.
pub manifest_key_order :
    (name : Bytes) (u v : ℕ)
    → u < v
    → v < 1000000
    → (bytes_leb (manifest_key name u) (manifest_key name v) ≡ true)
      × (bytes_leb (manifest_key name v) (manifest_key name u) ≡ false)
unfolding manifest_key
manifest_key_order name u v h b =
    rw
      (
        bytes_leb-front (manifest_prefix name),
        bytes_leb-front (manifest_prefix name),
        pad_six-digits u (omega arith),
        pad_six-digits v (omega arith),
      )
      (digits_order 6 u v json_suffix json_suffix h (omega arith))

-- Up to there the keys of two versions differ.
pub manifest_key-ne :
    (name : Bytes) (u v : ℕ) → u < v → v < 1000000 → manifest_key name u ≢ manifest_key name v
manifest_key-ne name u v h b e = cc (
  (manifest_key_order name u v h b).1,
  bytes_leb_refl (manifest_key name u),
  ap (λ k. bytes_leb k (manifest_key name u)) e,
)
