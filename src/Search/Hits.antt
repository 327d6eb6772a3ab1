-- ===== src/Search/Hits.antt =====
-- Where the hits of a search of pkg/search/search.go come from.
use Prim.{tt}
use s3search.Base.{
  ℕ, zero, suc, ◌+◌, ◌≡◌, refl, Bytes, List, [], ◌∷◌, map, length, take, drop, ltb, leb, Bool-cases,
  inl, inr, All, All-append, get_elem?, Option, some,
}
use mathlib.Core.Path.{subst}
use s3search.Manifest.Versions.{SegmentMeta}
use s3search.Search.{
  Result, value, error, and_then, Hit, PartialResult, no_results, insert_hit, sort_hits, cut, skip,
  with_source, with_sources, segment_search, merge_results, respond, search_segment,
  search_segments,
}

abbrev pub Among {ℓ} : {A : Type ℓ} → List A → A → Type ℓ
Among xs x = (i : ℕ) × (get_elem? xs i ≡ some x)

-- a document that an active segment scored, with its source
pub record IsHitOf {E : Type 0} (scored_docs : SegmentMeta → Result E (List Hit))
    (source : SegmentMeta → ℕ → Result E (Option Bytes)) (segs : List SegmentMeta) (h : Hit)
    : Type 0 where
  pub seg : SegmentMeta
  pub seg_among : Among segs seg
  pub docs : List Hit
  pub docs_are : scored_docs seg ≡ value docs
  pub doc : Hit
  pub doc_among : Among docs doc
  pub src : Option Bytes
  pub src_is : source seg doc.doc_id ≡ value src
  pub hit_is : h ≡ with_source doc src

module _ {ℓ} {A : Type ℓ} where
  All-imp {κ μ} :
      (P : A → Type κ) (Q : A → Type μ) (xs : List A) → ((x : A) → P x → Q x) → All P xs → All Q xs
  All-imp P Q [] f h = tt
  All-imp P Q (x ∷ xs) f (p, h) = (f x p, All-imp P Q xs f h)

  All-Among : (xs : List A) → All (Among xs) xs
  All-Among [] = tt
  All-Among (x ∷ xs) =
      ((0, refl), All-imp (Among xs) (Among (x ∷ xs)) xs (λ y (i, e). (suc i, e)) (All-Among xs))

  module _ {κ} (P : A → Type κ) where
    kept-take : (n : ℕ) (xs : List A) → All P xs → All P (take n xs)
    kept-take zero xs h = tt
    kept-take (suc n) [] h = tt
    kept-take (suc n) (x ∷ xs) (p, h) = (p, kept-take n xs h)

    kept-drop : (n : ℕ) (xs : List A) → All P xs → All P (drop n xs)
    kept-drop zero xs h = h
    kept-drop (suc n) [] h = tt
    kept-drop (suc n) (x ∷ xs) (p, h) = kept-drop n xs h

module _ (P : Hit → Type 0) where
  All-insert_hit : (h : Hit) (hs : List Hit) → P h → All P hs → All P (insert_hit h hs)
  unfolding insert_hit
  All-insert_hit h [] p ps = (p, tt)
  All-insert_hit h (g ∷ gs) p (q, ps) = elim (Bool-cases (leb g.score h.score)) [
    | inl above ↦ rw above (p, (q, ps))
    | inr below ↦ rw below (q, All-insert_hit h gs p ps)
  ]

  All-sort_hits : (hs : List Hit) → All P hs → All P (sort_hits hs)
  unfolding sort_hits
  All-sort_hits [] ps = tt
  All-sort_hits (h ∷ hs) (p, ps) = All-insert_hit h (sort_hits hs) p (All-sort_hits hs ps)

  All-cut : (n : ℕ) (hs : List Hit) → All P hs → All P (cut n hs)
  unfolding cut
  All-cut n hs ps = elim (Bool-cases (ltb n (length hs))) [
    | inl more ↦ rw more (kept-take P n hs ps)
    | inr all ↦ rw all ps
  ]

  All-respond :
      (from size : ℕ) (merged : PartialResult)
      → All P merged.hits
      → All P (respond from size merged).hits
  unfolding respond skip
  All-respond from size merged ps = All-cut size _ (kept-drop P _ _ (All-sort_hits merged.hits ps))

value_inj : {E A : Type 0} {a b : A} → ◌≡◌ {A = Result E A} (value a) (value b) → a ≡ b
value_inj e = cc e

-- Inversion of a chain that gave a value.
and_then-eq-value :
    {E A B : Type 0} (run : Result E A) (next : A → Result E B) {b : B}
    → and_then run next ≡ value b
    → (a : A) × (run ≡ value a) × (next a ≡ value b)
and_then-eq-value (value a) next e = (a, refl, e)
and_then-eq-value (error why) next e = cc

module _ {E : Type 0} where
  -- the hits that `with_sources` gives, for the documents that it was given
  abbrev IsSourced : (ℕ → Result E (Option Bytes)) → List Hit → Hit → Type 0
  IsSourced source docs h =
      (doc : Hit) × Among docs doc
      × (src : Option Bytes) × (source doc.doc_id ≡ value src)
      × (h ≡ with_source doc src)

  All-with_sources :
      (source : ℕ → Result E (Option Bytes)) (docs hs gs : List Hit)
      → All (Among docs) hs
      → with_sources source hs ≡ value gs
      → All (IsSourced source docs) gs
  unfolding with_sources
  All-with_sources source docs [] gs ps e = subst (All (IsSourced source docs)) (value_inj e) tt
  All-with_sources source docs (h ∷ hs) gs (p, ps) e =
      let (src, src_is, e1) = and_then-eq-value (source h.doc_id) _ e in
      let (rest, rest_is, e2) = and_then-eq-value (with_sources source hs) _ e1 in
      subst (All (IsSourced source docs)) (value_inj e2)
        ((h, p, src, src_is, refl), All-with_sources source docs hs rest ps rest_is)

  All-merge_results :
      (P : Hit → Type 0) (run : Result E PartialResult) (rs : List (Result E PartialResult))
      (acc : PartialResult)
      → ((r : PartialResult) → run ≡ value r → All P r.hits)
      → ((next : PartialResult) → All P next.hits → All P (merge_results rs next).hits)
      → All P acc.hits
      → All P (merge_results (run ∷ rs) acc).hits
  unfolding merge_results
  All-merge_results P (value r) rs acc h rest ps =
      rest _ (All-append P acc.hits r.hits ps (h r refl))
  All-merge_results P (error e) rs acc h rest ps = rest acc ps

  module _ (scored_docs : SegmentMeta → Result E (List Hit))
      (source : SegmentMeta → ℕ → Result E (Option Bytes)) where
    segment-IsHitOf :
        (k : ℕ) (segs : List SegmentMeta) (seg : SegmentMeta) (r : PartialResult)
        → Among segs seg
        → search_segment scored_docs source k seg ≡ value r
        → All (IsHitOf scored_docs source segs) r.hits
    unfolding search_segment segment_search
    segment-IsHitOf k segs seg r among e =
        let (docs, docs_are, e1) = and_then-eq-value (scored_docs seg) _ e in
        let (hits, hits_are, e2) =
          and_then-eq-value (with_sources (source seg) (cut k (sort_hits docs))) _ e1 in
        let sourced =
          All-with_sources (source seg) docs (cut k (sort_hits docs)) hits
            (All-cut (Among docs) k (sort_hits docs)
              (All-sort_hits (Among docs) docs (All-Among docs)))
            hits_are in
        subst (λ p. All (IsHitOf scored_docs source segs) p.hits) (value_inj e2)
          (All-imp (IsSourced (source seg) docs) (IsHitOf scored_docs source segs) hits
            (λ h (doc, doc_among, src, src_is, hit_is). record {
              seg = seg;
              seg_among = among;
              docs = docs;
              docs_are = docs_are;
              doc = doc;
              doc_among = doc_among;
              src = src;
              src_is = src_is;
              hit_is = hit_is;
            })
            sourced)

    merged-IsHitOf :
        (k : ℕ) (all segs : List SegmentMeta) (acc : PartialResult)
        → All (Among all) segs
        → All (IsHitOf scored_docs source all) acc.hits
        → All
            (IsHitOf scored_docs source all)
            (merge_results (map (search_segment scored_docs source k) segs) acc).hits
    unfolding merge_results
    merged-IsHitOf k all [] acc among ps = ps
    merged-IsHitOf k all (seg ∷ segs) acc (a, among) ps =
        All-merge_results (IsHitOf scored_docs source all) (search_segment scored_docs source k seg)
          (map (search_segment scored_docs source k) segs) acc
          (λ r e. segment-IsHitOf k all seg r a e)
          (λ next qs. merged-IsHitOf k all segs next among qs) ps

    pub search_segments-IsHitOf :
        (from size : ℕ) (segs : List SegmentMeta)
        → All
            (IsHitOf scored_docs source segs)
            (search_segments scored_docs source from size segs).hits
    unfolding search_segments
    search_segments-IsHitOf from size [] = tt
    search_segments-IsHitOf from size (seg ∷ segs) =
        All-respond (IsHitOf scored_docs source (seg ∷ segs)) from size
          (merge_results (map (search_segment scored_docs source (from + size)) (seg ∷ segs))
            no_results)
          (merged-IsHitOf (from + size) (seg ∷ segs) (seg ∷ segs) no_results
            (All-Among (seg ∷ segs)) tt)
