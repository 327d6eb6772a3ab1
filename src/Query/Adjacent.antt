-- ===== src/Query/Adjacent.antt =====
-- What `phraseMatch` of pkg/query/exec.go finds, where the positions of each term are in ascending order.
use s3search.Base.{
  ℕ, suc, ◌+◌, ◌%◌, ◌^◌, ◌<◌, ◌≤◌, ◌≡◌, ◌↔◌, refl, sym, arith, true, false, List, [], ◌∷◌,
}
use s3search.Base.{contains, ◌==◌, nat_eq, Bool-cases, inl, inr, ==_iff}
use s3search.Query.Bitmap.{Roaring}
use s3search.Query.Leaves.{TermData, found_at, positions_of, match_rest, match_any, phrase_match}

-- in strictly ascending order, above a bound
abbrev pub AreAbove : ℕ → List ℕ → Type 0
AreAbove b [] = Unit
AreAbove b (p ∷ ps) = (b < p) × AreAbove p ps

abbrev pub IsAscending : List ℕ → Type 0
IsAscending [] = Unit
IsAscending (p ∷ ps) = AreAbove p ps

contains-AreAbove : (n b : ℕ) (ps : List ℕ) → AreAbove b ps → n ≤ b → contains n ps ≡ false
unfolding contains
contains-AreAbove n b [] h k = refl
contains-AreAbove n b (p ∷ ps) (hp, h) k = ground (arith, contains-AreAbove n p ps h (omega arith))

AreAbove-IsAscending : (b : ℕ) (ps : List ℕ) → AreAbove b ps → IsAscending ps
AreAbove-IsAscending b [] h = tt
AreAbove-IsAscending b (p ∷ ps) (hp, h) = h

-- The search that gives up at the first larger position misses nothing.
found_at-contains : (n : ℕ) (ps : List ℕ) → IsAscending ps → found_at n ps ≡ contains n ps
unfolding found_at contains
found_at-contains n [] h = refl
found_at-contains n (p ∷ ps) h =
    ground (arith, found_at-contains n ps (AreAbove-IsAscending p ps h), contains-AreAbove n p ps h)

module _ (rb : Roaring) where
  -- The `i`th term and those after it stand at `start + i` and on.
  abbrev pub StandFrom : ℕ → ℕ → ℕ → List (TermData rb) → Type 0
  StandFrom d start i [] = Unit
  StandFrom d start i (td ∷ tds) =
      (contains ((start + i) % 2 ^ 32) (positions_of rb td d) ≡ true)
      × StandFrom d start (suc i) tds

  abbrev pub AreSorted : ℕ → List (TermData rb) → Type 0
  AreSorted d [] = Unit
  AreSorted d (td ∷ tds) = IsAscending (positions_of rb td d) × AreSorted d tds

  match_rest_lem :
      (d start i : ℕ) (tds : List (TermData rb))
      → AreSorted d tds
      → (match_rest rb d start i tds ≡ true) ↔ StandFrom d start i tds
  unfolding match_rest
  match_rest_lem d start i [] h = (λ e. tt, λ e. refl)
  match_rest_lem d start i (td ∷ tds) (ht, h) = ground (
    arith,
    match_rest_lem d start (suc i) tds h,
    found_at-contains ((start + i) % 2 ^ 32) (positions_of rb td d) ht,
  )

  match_any_lem :
      (d : ℕ) (starts : List ℕ) (tds : List (TermData rb))
      → AreSorted d tds
      → (match_any rb d starts tds ≡ true)
        ↔ ((start : ℕ) × (contains start starts ≡ true) × StandFrom d start 1 tds)
  unfolding match_any contains
  match_any_lem d [] tds h = (λ e. cc, λ e. cc)
  match_any_lem d (s ∷ starts) tds h =
      let (to, from) = match_any_lem d starts tds h in
      let (here, back) = match_rest_lem d s 1 tds h in
      elim (Bool-cases (match_rest rb d s 1 tds)) [
        | inl m ↦ rw m (λ e. (s, ground arith, here m), λ e. refl)
        | inr n ↦ rw n (
          λ e. let (start, in', stand) = to e in (start, ground arith, stand),
          λ e. from (e.0, elsewhere n e.0 e.1 e.2, e.2),
        )
      ]
    where
      elsewhere :
          match_rest rb d s 1 tds ≡ false
          → (start : ℕ) → contains start (s ∷ starts) ≡ true
          → StandFrom d start 1 tds
          → contains start starts ≡ true
      elsewhere n start e stand = elim (Bool-cases (s == start)) [
        | inl same ↦
            let eq : start ≡ s = sym ((==_iff s start).0 same) in
            absurd (cc (n, (match_rest_lem d s 1 tds h).1 (rw eq at stand)))
        | inr other ↦ ground arith
      ]

  -- Where the positions of each term are in strictly ascending order, `phraseMatch` finds a document exactly if the first
  -- term stands at some position and each later one as many places behind it as it is in the phrase.
  pub phrase_match_lem :
      (d : ℕ) (td : TermData rb) (tds : List (TermData rb))
      → AreSorted d tds
      → (phrase_match rb d (td ∷ tds) ≡ true)
        ↔ ((start : ℕ) × (contains start (positions_of rb td d) ≡ true) × StandFrom d start 1 tds)
  unfolding phrase_match
  phrase_match_lem d td tds h = match_any_lem d (positions_of rb td d) tds h
