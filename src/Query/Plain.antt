-- ===== src/Query/Plain.antt =====
-- Lists of numbers in place of roaring bitmaps: data for the tests.
use s3search.Base.{
  ℕ, zero, suc, ◌≡◌, refl, arith, Bool, true, false, ◌&&◌, ◌||◌, not, List, [], ◌∷◌, ◌==◌, ltb,
  contains, nat_eq, if◌then◌else◌, inl, inr, Bool-cases, ==_iff, ap,
}
use s3search.Query.Bitmap.{Roaring}

pub below : ℕ → List ℕ
below zero = []
below (suc n) = n ∷ below n

pub contains-below : (d n : ℕ) → contains d (below n) ≡ ltb d n
unfolding contains below
contains-below d zero = ground arith
contains-below d (suc n) = ground (arith, contains-below d n)

pub append : List ℕ → List ℕ → List ℕ
append [] b = b
append (x ∷ a) b = x ∷ append a b

pub contains-append :
    (d : ℕ) (a b : List ℕ) → contains d (append a b) ≡ (contains d a || contains d b)
unfolding contains append
contains-append d [] b = refl
contains-append d (x ∷ a) b = ground (arith, contains-append d a b)

-- the elements of a list that another one holds, or does not
pub keep : Bool → List ℕ → List ℕ → List ℕ
keep t [] b = []
keep t (x ∷ a) b =
    let rest = keep t a b in
    if contains x b then (if t then x ∷ rest else rest) else (if t then rest else x ∷ rest)

pub contains-keep :
    (d : ℕ) (a b : List ℕ) → contains d (keep true a b) ≡ (contains d a && contains d b)
unfolding contains keep
contains-keep d [] b = refl
contains-keep d (x ∷ a) b = elim (Bool-cases (x == d)) [
  | inl same ↦ ground (arith, contains-keep d a b, ap (λ y. contains y b) ((==_iff x d).0 same))
  | inr other ↦ ground (arith, contains-keep d a b)
]

pub contains-keep_without :
    (d : ℕ) (a b : List ℕ) → contains d (keep false a b) ≡ (contains d a && not (contains d b))
unfolding contains keep
contains-keep_without d [] b = refl
contains-keep_without d (x ∷ a) b = elim (Bool-cases (x == d)) [
  | inl same ↦
      ground (arith, contains-keep_without d a b, ap (λ y. contains y b) ((==_iff x d).0 same))
  | inr other ↦ ground (arith, contains-keep_without d a b)
]

pub contains-nil : (d : ℕ) → contains d [] ≡ false
unfolding contains
contains-nil d = refl

pub contains-cons : (d c : ℕ) (a : List ℕ) → contains d (c ∷ a) ≡ (c == d || contains d a)
unfolding contains
contains-cons d c a = refl

abbrev pub lists : Roaring
lists = record {
  Bitmap = List ℕ;
  new = [];
  below = below;
  add = λ d a. d ∷ a;
  and = keep true;
  or = append;
  and_not = keep false;
  has = λ d a. contains d a;
  elements = λ a. a;
  has-new = contains-nil;
  has-below = contains-below;
  has-add = contains-cons;
  has-and = contains-keep;
  has-or = contains-append;
  has-and_not = contains-keep_without;
  contains-elements = λ d a. refl;
}
