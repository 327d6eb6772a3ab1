-- ===== src/Search/HitScores.antt =====
-- The scores of hits when pkg/search/search.go sorts and cuts them.
use s3search.Base.{
  ℕ, zero, suc, ◌+◌, ◌≡◌, refl, sym, ap, ◌∙◌, arith, Bool-cases, inl, inr, Bytes, List, [], ◌∷◌,
  ◌++◌, map, length, take, take-all, drop, drop-all, ltb, Option, none, some,
}
use s3search.Search.{Hit, PartialResult, insert_hit, sort_hits, cut, skip, with_source, respond}
use s3search.Search.Scores.{insert_score, insert_all}

abbrev pub scores : List Hit → List ℕ
scores = map (λ h. h.score)

pub scores-append : (hs gs : List Hit) → scores (hs ++ gs) ≡ scores hs ++ scores gs
scores-append [] gs = refl
scores-append (h ∷ hs) gs = ap (◌∷◌ h.score) (scores-append hs gs)

pub scores-take : (n : ℕ) (hs : List Hit) → scores (take n hs) ≡ take n (scores hs)
scores-take zero hs = refl
scores-take (suc n) [] = refl
scores-take (suc n) (h ∷ hs) = ap (◌∷◌ h.score) (scores-take n hs)

scores-drop : (n : ℕ) (hs : List Hit) → scores (drop n hs) ≡ drop n (scores hs)
scores-drop zero hs = refl
scores-drop (suc n) [] = refl
scores-drop (suc n) (h ∷ hs) = scores-drop n hs

pub take-drop : (n m k : ℕ) (l : List ℕ) → k ≡ m + n → take n (drop m l) ≡ drop m (take k l)
take-drop n zero k l e = ap (λ j. take j l) (omega (arith, e))
take-drop n (suc m) zero l e = absurd (omega (arith, e))
take-drop n (suc m) (suc k) [] e = take-all n [] (omega arith)
take-drop n (suc m) (suc k) (x ∷ l) e = take-drop n m k l (omega (arith, e))

scores-insert_hit :
    (h : Hit) (hs : List Hit) → scores (insert_hit h hs) ≡ insert_score h.score (scores hs)
unfolding insert_hit insert_score
scores-insert_hit h [] = refl
scores-insert_hit h (g ∷ gs) = ground (arith, scores-insert_hit h gs)

pub scores-sort_hits : (hs : List Hit) → scores (sort_hits hs) ≡ insert_all (scores hs) []
unfolding sort_hits insert_all
scores-sort_hits [] = refl
scores-sort_hits (h ∷ hs) =
    scores-insert_hit h (sort_hits hs) ∙ ap (insert_score h.score) (scores-sort_hits hs)

pub cut-take : (n : ℕ) (hs : List Hit) → cut n hs ≡ take n hs
unfolding cut
cut-take n hs = elim (Bool-cases (ltb n (length hs))) [
  | inl more ↦ rw more refl
  | inr all ↦ rw all (sym (take-all n hs (ground (arith, all))))
]

skip-drop : (n : ℕ) (hs : List Hit) → skip n hs ≡ drop n hs
unfolding skip
skip-drop n hs = elim (Bool-cases (ltb (length hs) n)) [
  | inl past ↦
      rw past (drop-all (length hs) hs (omega arith) ∙ sym (drop-all n hs (ground (arith, past))))
  | inr inside ↦ rw inside refl
]

pub scores-respond :
    (from size : ℕ) (merged : PartialResult)
    → scores (respond from size merged).hits
      ≡ take size (drop from (insert_all (scores merged.hits) []))
unfolding respond
scores-respond from size merged =
    ap scores (cut-take size (skip from (sort_hits merged.hits)))
    ∙ scores-take size (skip from (sort_hits merged.hits))
    ∙ ap (λ hs. take size (scores hs)) (skip-drop from (sort_hits merged.hits))
    ∙ ap (take size) (scores-drop from (sort_hits merged.hits))
    ∙ ap (λ l. take size (drop from l)) (scores-sort_hits merged.hits)

pub scores-with_source : (h : Hit) (src : Option Bytes) → (with_source h src).score ≡ h.score
unfolding with_source
scores-with_source h none = refl
scores-with_source h (some src) = refl
