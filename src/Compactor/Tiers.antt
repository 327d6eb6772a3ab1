-- ===== src/Compactor/Tiers.antt =====
-- The tiers that `pickMergeCandidates` of pkg/index/compactor.go puts segments into.

use s3search.Base.{
  ℕ, ◌≡◌, refl, sym, ap, ◌∙◌, arith, List, [], ◌∷◌, ◌++◌, append-nil, append_assoc, All, ◌==◌,
  ==_iff, nat_eq, lookup, lookup-insert, Bool-cases, inl, inr, if◌then◌else◌,
}
use s3search.Manifest.Versions.{SegmentMeta}
use s3search.Compactor.Pick.{tier_of, or_empty, add_to_tier, bucket}

-- the segments of one tier, in their order
abbrev pub of_tier : ℕ → List SegmentMeta → List SegmentMeta
of_tier t [] = []
of_tier t (s ∷ segs) = if tier_of s == t then s ∷ of_tier t segs else of_tier t segs

-- a key that the map has comes with what it is looked up to
abbrev pub AreBuckets : List SegmentMeta → List (ℕ × List SegmentMeta) → Type 0
AreBuckets segs = All (λ b. b.1 ≡ of_tier b.0 segs)

of_tier-snoc :
    (t : ℕ) (segs : List SegmentMeta) (s : SegmentMeta)
    → of_tier t (segs ++ s ∷ [])
      ≡ (if tier_of s == t then of_tier t segs ++ s ∷ [] else of_tier t segs)
of_tier-snoc t [] s = refl
of_tier-snoc t (first ∷ segs) s = ground (arith, of_tier-snoc t segs s)

-- the map with the segments so far: under each tier that is there all its segments, and none missing
abbrev pub Tiered : List SegmentMeta → List (ℕ × List SegmentMeta) → Type 0
Tiered segs m = (t : ℕ) → or_empty (lookup t m) ≡ of_tier t segs

add_to_tier-Tiered :
    (segs : List SegmentMeta) (s : SegmentMeta) (m : List (ℕ × List SegmentMeta))
    → Tiered segs m
    → Tiered (segs ++ s ∷ []) (add_to_tier (tier_of s) s m)
unfolding add_to_tier
add_to_tier-Tiered segs s m h t =
    ap or_empty (lookup-insert (tier_of s) t (or_empty (lookup (tier_of s) m) ++ s ∷ []) m)
    ∙ elim (Bool-cases (tier_of s == t)) [
      | inl same ↦
          let here : tier_of s ≡ t = (==_iff (tier_of s) t).0 same in
          rw same (
            unfold or_empty in
            ap (λ l. l ++ s ∷ []) (ap (λ k. or_empty (lookup k m)) here ∙ h t)
            ∙ sym (of_tier-snoc t segs s ∙ rw same refl))
      | inr other ↦ rw other (h t ∙ sym (of_tier-snoc t segs s ∙ rw other refl))
    ]

pub bucket-Tiered :
    (done segs : List SegmentMeta) (m : List (ℕ × List SegmentMeta))
    → Tiered done m
    → Tiered (done ++ segs) (bucket segs m)
unfolding bucket
bucket-Tiered done [] m h = λ t. h t ∙ ap (of_tier t) (sym (append-nil done))
bucket-Tiered done (s ∷ segs) m h = λ t.
    bucket-Tiered (done ++ s ∷ []) segs (add_to_tier (tier_of s) s m)
      (add_to_tier-Tiered done s m h) t
    ∙ ap (of_tier t) (append_assoc done (s ∷ []) segs)
