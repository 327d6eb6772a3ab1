-- ===== src/Compactor/Candidates.antt =====
-- Which segments `pickMergeCandidates` of pkg/index/compactor.go picks.
use s3search.Base.{
  ℕ, zero, suc, ◌≤◌, ◌<◌, ◌≡◌, refl, sym, ap, ◌∙◌, arith, ◌&&◌, List, [], ◌∷◌, length, get_elem?,
  leb, leb→le, ltb, nat_eq, lookup, some, Option-cases, Bool-cases, inl, inr, ◌⊎◌,
}
use mathlib.Core.Path.{subst}
use s3search.Manifest.Versions.{SegmentMeta}
use s3search.Compactor.Pick.{
  min_merge_count, or_empty, bucket, best_of, fall_back, or_fall_back, pick_merge_candidates,
}
use s3search.Compactor.Tiers.{of_tier, Tiered, bucket-Tiered}
use s3search.Compactor.Smallest.{AreSmallest, take-sort_by_bytes-AreSmallest}

abbrev Tier : Type 0
Tier = ℕ × List SegmentMeta

-- What Go's range runs through: the entries of the map in some order, none left out.
pub record IsRange (tier_map tiers : List Tier) : Type 0 where
  pub listed : (i : ℕ) (b : Tier) → get_elem? tiers i ≡ some b → lookup b.0 tier_map ≡ some b.1
  pub complete :
      (t : ℕ) (v : List SegmentMeta)
      → lookup t tier_map ≡ some v
      → (i : ℕ) × (get_elem? tiers i ≡ some (t, v))

-- all segments of one tier, at least four, and no tier has more
pub record IsBiggestTier (segs picked : List SegmentMeta) : Type 0 where
  pub tier : ℕ
  pub picked_is : picked ≡ of_tier tier segs
  pub enough : 4 ≤ length picked
  pub biggest : (t : ℕ) → length (of_tier t segs) ≤ length picked

-- the result of the loop over the tiers
record IsBest (best : List SegmentMeta) (tiers : List Tier) (result : List SegmentMeta)
    : Type 0 where
  from :
      (result ≡ best)
      ⊎ ((i : ℕ) × (b : Tier) × (get_elem? tiers i ≡ some b) × (result ≡ b.1) × (4 ≤ length b.1))
  grows : length best ≤ length result
  above :
      (i : ℕ) (b : Tier) → get_elem? tiers i ≡ some b → 4 ≤ length b.1 → length b.1 ≤ length result

-- a round of the loop
IsBest-next :
    (best next : List SegmentMeta) (b : Tier) (tiers : List Tier) (result : List SegmentMeta)
    → (next ≡ best) ⊎ ((next ≡ b.1) × (4 ≤ length b.1))
    → length best ≤ length next
    → (4 ≤ length b.1 → length b.1 ≤ length next)
    → IsBest next tiers result
    → IsBest best (b ∷ tiers) result
IsBest-next best next b tiers result taken larger reaches h = record {
  from = from h.from taken;
  grows = omega (arith, larger, h.grows);
  above = above;
}
  where
    from :
        (result ≡ next)
          ⊎ ((i : ℕ) × (c : Tier) × (get_elem? tiers i ≡ some c)
              × (result ≡ c.1)
              × (4 ≤ length c.1))
        → (next ≡ best) ⊎ ((next ≡ b.1) × (4 ≤ length b.1))
        → (result ≡ best)
          ⊎ ((i : ℕ) × (c : Tier) × (get_elem? (b ∷ tiers) i ≡ some c)
              × (result ≡ c.1)
              × (4 ≤ length c.1))
    from (inl e) (inl kept) = inl (e ∙ kept)
    from (inl e) (inr (replaced, enough)) = inr (0, b, refl, e ∙ replaced, enough)
    from (inr (i, c, at_i, e, enough)) taken = inr (suc i, c, at_i, e, enough)

    above :
        (i : ℕ) (c : Tier)
        → get_elem? (b ∷ tiers) i ≡ some c
        → 4 ≤ length c.1
        → length c.1 ≤ length result
    above zero c at_i enough =
        let same : b ≡ c = cc at_i in
        let reached : length b.1 ≤ length next =
          reaches (subst (λ x. 4 ≤ length x.1) (sym same) enough) in
        subst (λ x. length x.1 ≤ length result) same (omega (arith, reached, h.grows))
    above (suc i) c at_i enough = h.above i c at_i enough

best_of-IsBest :
    (best : List SegmentMeta) (tiers : List Tier) → IsBest best tiers (best_of best tiers)
unfolding best_of
best_of-IsBest best [] = record {
  from = inl refl;
  grows = omega arith;
  above = λ i b at_i. absurd (cc at_i);
}
best_of-IsBest best ((t, v) ∷ tiers) =
    elim (Bool-cases (leb min_merge_count (length v) && ltb (length best) (length v))) [
      | inl larger ↦ rw larger (
          IsBest-next best v (t, v) tiers (best_of v tiers) (inr (refl, ground (arith, larger)))
            (ground (arith, larger)) (λ enough. omega arith) (best_of-IsBest v tiers))
      | inr kept ↦ rw kept (
          IsBest-next best best (t, v) tiers (best_of best tiers) (inl refl) (omega arith)
            (λ enough. ground (arith, kept, enough)) (best_of-IsBest best tiers))
    ]

module _ (map_order : List Tier → List Tier) (segs : List SegmentMeta)
    (range : IsRange (bucket segs []) (map_order (bucket segs []))) where
  tiered : Tiered segs (bucket segs [])
  tiered = bucket-Tiered [] segs [] (λ t. unfold lookup or_empty in refl)

  -- each tier is in reach of the result
  within :
      (result : List SegmentMeta) (t : ℕ)
      → IsBest [] (map_order (bucket segs [])) result
      → (length (of_tier t segs) < 4) ⊎ (length (of_tier t segs) ≤ length result)
  unfolding or_empty
  within result t h = elim (Option-cases (lookup t (bucket segs []))) [
    | inl missing ↦
        let none_there : [] ≡ of_tier t segs = (sym (ap or_empty missing) ∙ tiered t) in
        inl (rw (← none_there) (omega arith))
    | inr (v, there) ↦
        let all : v ≡ of_tier t segs = (sym (ap or_empty there) ∙ tiered t) in
        let (i, at_i) = range.complete t v there in
        elim (Bool-cases (leb 4 (length v))) [
          | inl enough ↦ inr (rw (← all) (h.above i (t, v) at_i (leb→le 4 (length v) enough)))
          | inr few ↦ inl (rw (← all) (ground (arith, few)))
        ]
  ]

  nothing_best : IsBest [] (map_order (bucket segs [])) [] → (t : ℕ) → length (of_tier t segs) < 4
  nothing_best h t = elim (within [] t h) [ inl few ↦ few | inr empty ↦ omega (arith, empty) ]

  some_best :
      (first : SegmentMeta) (rest : List SegmentMeta)
      → IsBest [] (map_order (bucket segs [])) (first ∷ rest)
      → IsBiggestTier segs (first ∷ rest)
  unfolding or_empty
  some_best first rest h = elim h.from [
    | inl e ↦ absurd (cc e)
    | inr (i, b, at_i, e, enough) ↦
        let size : length (first ∷ rest) ≡ length b.1 = ap length e in
        record {
          tier = b.0;
          picked_is = e ∙ sym (ap or_empty (range.listed i b at_i)) ∙ tiered b.0;
          enough = omega (arith, size, enough);
          biggest = λ t. elim (within (first ∷ rest) t h) [
            | inl few ↦ omega (arith, few, size, enough)
            | inr less ↦ less
          ];
        }
  ]

  or_fall_back_lem :
      (best : List SegmentMeta)
      → IsBest [] (map_order (bucket segs [])) best
      → IsBiggestTier segs (or_fall_back best segs)
        ⊎ ((t : ℕ) → length (of_tier t segs) < 4)
          × ((length segs < 4) × (or_fall_back best segs ≡ [])
              ⊎ AreSmallest 4 segs (or_fall_back best segs))
  unfolding or_fall_back fall_back
  or_fall_back_lem [] h = inr (
    nothing_best h,
    elim (Bool-cases (leb min_merge_count (length segs))) [
      | inl enough ↦
          inr (rw enough (take-sort_by_bytes-AreSmallest 4 segs (leb→le 4 (length segs) enough)))
      | inr few ↦ inl (rw few (ground (arith, few), refl))
    ],
  )
  or_fall_back_lem (first ∷ rest) h = inl (some_best first rest h)

  -- In whatever order Go runs through the tiers: where a tier has four segments or more, all segments of one
  -- tier are picked, and no tier has more. Where none has, the four smallest of all segments are picked, or
  -- none if there are fewer than four.
  pub pick_merge_candidates_lem :
      IsBiggestTier segs (pick_merge_candidates map_order segs)
      ⊎ ((t : ℕ) → length (of_tier t segs) < 4)
        × ((length segs < 4) × (pick_merge_candidates map_order segs ≡ [])
            ⊎ AreSmallest 4 segs (pick_merge_candidates map_order segs))
  unfolding pick_merge_candidates
  pick_merge_candidates_lem =
      or_fall_back_lem (best_of [] (map_order (bucket segs [])))
        (best_of-IsBest [] (map_order (bucket segs [])))
