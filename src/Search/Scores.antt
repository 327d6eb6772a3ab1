-- ===== src/Search/Scores.antt =====
-- Lists of scores in falling order, for the merge of pkg/search/search.go.
use Prim.{tt}
use s3search.Base.{
  ℕ, zero, suc, ◌≡◌, refl, sym, ap, ◌∙◌, arith, Bool-cases, inl, inr, List, [], ◌∷◌, ◌++◌, take,
  take-take, leb, if◌then◌else◌,
}

unfoldable pub insert_score : ℕ → List ℕ → List ℕ
insert_score x [] = x ∷ []
insert_score x (y ∷ ys) = if leb y x then x ∷ y ∷ ys else y ∷ insert_score x ys

-- the second list with the scores of the first put in
unfoldable pub insert_all : List ℕ → List ℕ → List ℕ
unfolding insert_score
insert_all [] ys = ys
insert_all (x ∷ xs) ys = insert_score x (insert_all xs ys)

-- Every score goes in front of what follows it.
abbrev pub IsFalling : List ℕ → Type 0
IsFalling [] = Unit
IsFalling (x ∷ xs) = (insert_score x xs ≡ x ∷ xs) × IsFalling xs

insert_score_comm :
    (x y : ℕ) (l : List ℕ) → insert_score x (insert_score y l) ≡ insert_score y (insert_score x l)
unfolding insert_score
insert_score_comm x y [] = ground arith
insert_score_comm x y (z ∷ l) = ground (arith, insert_score_comm x y l)

insert_all_insert :
    (x : ℕ) (ys l : List ℕ) → insert_all (insert_score x ys) l ≡ insert_score x (insert_all ys l)
unfolding insert_all insert_score
insert_all_insert x [] l = refl
insert_all_insert x (y ∷ ys) l = elim (Bool-cases (leb y x)) [
  | inl above ↦ rw above refl
  | inr below ↦
      rw below
        (ap (insert_score y) (insert_all_insert x ys l) ∙ insert_score_comm y x (insert_all ys l))
]

insert_all-insert_score :
    (x : ℕ) (ys l : List ℕ) → insert_all ys (insert_score x l) ≡ insert_score x (insert_all ys l)
unfolding insert_all
insert_all-insert_score x [] l = refl
insert_all-insert_score x (y ∷ ys) l =
    ap (insert_score y) (insert_all-insert_score x ys l) ∙ insert_score_comm y x (insert_all ys l)

insert_all_comm :
    (xs ys l : List ℕ) → insert_all xs (insert_all ys l) ≡ insert_all ys (insert_all xs l)
unfolding insert_all
insert_all_comm [] ys l = refl
insert_all_comm (x ∷ xs) ys l =
    ap (insert_score x) (insert_all_comm xs ys l)
    ∙ sym (insert_all-insert_score x ys (insert_all xs l))

pub insert_all-append :
    (xs ys l : List ℕ) → insert_all (xs ++ ys) l ≡ insert_all xs (insert_all ys l)
unfolding insert_all
insert_all-append [] ys l = refl
insert_all-append (x ∷ xs) ys l = ap (insert_score x) (insert_all-append xs ys l)

insert_all-sorted : (xs l : List ℕ) → insert_all (insert_all xs []) l ≡ insert_all xs l
unfolding insert_all
insert_all-sorted [] l = refl
insert_all-sorted (x ∷ xs) l =
    insert_all_insert x (insert_all xs []) l ∙ ap (insert_score x) (insert_all-sorted xs l)

-- What a list has at the front decides what it has there after an insertion.
take-insert_score :
    (k x : ℕ) (l : List ℕ) → take k (insert_score x (take k l)) ≡ take k (insert_score x l)
unfolding insert_score
take-insert_score zero x l = refl
take-insert_score (suc k) x [] = refl
take-insert_score (suc k) x (y ∷ l) = elim (Bool-cases (leb y x)) [
  | inl above ↦ rw above (ap (◌∷◌ x) (front k))
  | inr below ↦ rw below (ap (◌∷◌ y) (take-insert_score k x l))
]
  where
    front : (k : ℕ) → take k (y ∷ take k l) ≡ take k (y ∷ l)
    front zero = refl
    front (suc k) = ap (◌∷◌ y) (take-take k (suc k) l (omega arith))

take-insert_all :
    (k : ℕ) (xs l m : List ℕ)
    → take k l ≡ take k m
    → take k (insert_all xs l) ≡ take k (insert_all xs m)
unfolding insert_all
take-insert_all k [] l m e = e
take-insert_all k (x ∷ xs) l m e =
    sym (take-insert_score k x (insert_all xs l))
    ∙ ap (λ front. take k (insert_score x front)) (take-insert_all k xs l m e)
    ∙ take-insert_score k x (insert_all xs m)

insert_score-IsFalling : (x : ℕ) (l : List ℕ) → IsFalling l → IsFalling (insert_score x l)
unfolding insert_score
insert_score-IsFalling x [] h = (refl, tt)
insert_score-IsFalling x (y ∷ l) (at_front, h) = elim (Bool-cases (leb y x)) [
  | inl above ↦ rw above (rw above refl, (at_front, h))
  | inr below ↦ rw below (
    insert_score_comm y x l ∙ ap (insert_score x) at_front ∙ rw below refl,
    insert_score-IsFalling x l h,
  )
]

insert_all-IsFalling : (xs : List ℕ) → IsFalling (insert_all xs [])
unfolding insert_all
insert_all-IsFalling [] = tt
insert_all-IsFalling (x ∷ xs) =
    insert_score-IsFalling x (insert_all xs []) (insert_all-IsFalling xs)

take-front :
    (k x : ℕ) (l : List ℕ) → insert_score x l ≡ x ∷ l → insert_score x (take k l) ≡ x ∷ take k l
unfolding insert_score
take-front zero x l e = refl
take-front (suc k) x [] e = refl
take-front (suc k) x (y ∷ l) e = elim (Bool-cases (leb y x)) [
  | inl above ↦ rw above refl
  | inr below ↦ absurd (ground (arith, e, below))
]

take-IsFalling : (k : ℕ) (l : List ℕ) → IsFalling l → IsFalling (take k l)
take-IsFalling zero l h = tt
take-IsFalling (suc k) [] h = tt
take-IsFalling (suc k) (x ∷ l) (at_front, h) = (take-front k x l at_front, take-IsFalling k l h)

insert_all-falling : (l : List ℕ) → IsFalling l → insert_all l [] ≡ l
unfolding insert_all
insert_all-falling [] h = refl
insert_all-falling (x ∷ l) (at_front, h) = ap (insert_score x) (insert_all-falling l h) ∙ at_front

-- The best `k` of a part stand for the part, where the best `k` of all are asked for.
pub take-insert_all_best :
    (k : ℕ) (xs best_of_rest rest : List ℕ)
    → take k (insert_all best_of_rest []) ≡ take k (insert_all rest [])
    → take k (insert_all (take k (insert_all xs []) ++ best_of_rest) [])
      ≡ take k (insert_all (xs ++ rest) [])
take-insert_all_best k xs best_of_rest rest e =
    let best = take k (insert_all xs []) in
    ap (take k) (insert_all-append best best_of_rest [])
    ∙ take-insert_all k best (insert_all best_of_rest []) (insert_all rest []) e
    ∙ ap (take k) (insert_all_comm best rest [])
    ∙ take-insert_all k rest (insert_all best []) (insert_all xs []) (
        ap (take k) (insert_all-falling best (take-IsFalling k _ (insert_all-IsFalling xs)))
        ∙ take-take k k (insert_all xs []) (omega arith))
    ∙ ap (take k) (insert_all_comm rest xs [])
    ∙ sym (ap (take k) (insert_all-append xs rest []))
