-- ===== src/Base/Order.antt =====
-- The order of Go strings, byte by byte, and `sort.Strings`.
use Prim.Native.Nat.{ℕ, suc}
use mathlib.Core.Path.{◌≡◌, refl, sym, ap, ◌∙◌}
use mathlib.Core.Logic.{◌⊎◌, inl, inr}
use mathlib.Core.Bool.{Bool, true, false, ◌||◌}
use mathlib.Core.Option.{Option, none, some}
use mathlib.Core.List.{List, [], ◌∷◌, ◌++◌}
use native.Mathlib.Omega.{arith}
use s3search.Base.Tests.{ltb, ◌==◌, if◌then◌else◌, Bool-cases}
use s3search.Base.Lists.{length, get_elem?, All}
use s3search.Base.Keyed.{contains, bytes_eq, bytes_beq, bytes_beq_iff}

unfoldable pub bytes_leb : List ℕ → List ℕ → Bool
bytes_leb [] ys = true
bytes_leb (x ∷ xs) [] = false
bytes_leb (x ∷ xs) (y ∷ ys) = if x == y then bytes_leb xs ys else ltb x y

pub bytes_leb_refl : (xs : List ℕ) → bytes_leb xs xs ≡ true
unfolding bytes_leb
bytes_leb_refl [] = refl
bytes_leb_refl (x ∷ xs) = ground (arith, bytes_leb_refl xs)

pub bytes_leb_trans :
    (xs ys zs : List ℕ) → bytes_leb xs ys ≡ true → bytes_leb ys zs ≡ true → bytes_leb xs zs ≡ true
unfolding bytes_leb
bytes_leb_trans [] ys zs h k = refl
bytes_leb_trans (x ∷ xs) [] zs h k = cc
bytes_leb_trans (x ∷ xs) (y ∷ ys) [] h k = k
bytes_leb_trans (x ∷ xs) (y ∷ ys) (z ∷ zs) h k = ground (arith, bytes_leb_trans xs ys zs)

pub bytes_leb_antisymm :
    (xs ys : List ℕ) → bytes_leb xs ys ≡ true → bytes_leb ys xs ≡ true → xs ≡ ys
unfolding bytes_leb
bytes_leb_antisymm [] [] h k = refl
bytes_leb_antisymm [] (y ∷ ys) h k = cc
bytes_leb_antisymm (x ∷ xs) [] h k = cc
bytes_leb_antisymm (x ∷ xs) (y ∷ ys) h k = ground (arith, bytes_leb_antisymm xs ys)

pub bytes_leb_total : (xs ys : List ℕ) → bytes_leb xs ys ≡ false → bytes_leb ys xs ≡ true
unfolding bytes_leb
bytes_leb_total [] ys h = cc
bytes_leb_total (x ∷ xs) [] h = refl
bytes_leb_total (x ∷ xs) (y ∷ ys) h = ground (arith, bytes_leb_total xs ys)

-- A common front does not count.
pub bytes_leb-front :
    (front xs ys : List ℕ) → bytes_leb (front ++ xs) (front ++ ys) ≡ bytes_leb xs ys
unfolding bytes_leb
bytes_leb-front [] xs ys = refl
bytes_leb-front (f ∷ front) xs ys = ground (arith, bytes_leb-front front xs ys)

unfoldable pub insert_sorted : List ℕ → List (List ℕ) → List (List ℕ)
insert_sorted x [] = x ∷ []
insert_sorted x (y ∷ ys) = if bytes_leb x y then x ∷ y ∷ ys else y ∷ insert_sorted x ys

-- `sort.Strings`
unfoldable pub sort_strings : List (List ℕ) → List (List ℕ)
unfolding insert_sorted
sort_strings [] = []
sort_strings (x ∷ xs) = insert_sorted x (sort_strings xs)

-- `keys[len(keys)-1]`
unfoldable pub last? {ℓ} : {A : Type ℓ} → List A → Option A
last? [] = none
last? (x ∷ []) = some x
last? (x ∷ y ∷ ys) = last? (y ∷ ys)

contains-insert_sorted :
    (k x : List ℕ) (ys : List (List ℕ))
    → contains k (insert_sorted x ys) ≡ (bytes_beq x k || contains k ys)
unfolding contains insert_sorted
contains-insert_sorted k x [] = refl
contains-insert_sorted k x (y ∷ ys) = ground (arith, contains-insert_sorted k x ys)

-- Sorting keeps the elements.
pub contains-sort_strings :
    (k : List ℕ) (xs : List (List ℕ)) → contains k (sort_strings xs) ≡ contains k xs
unfolding sort_strings contains
contains-sort_strings k [] = refl
contains-sort_strings k (x ∷ xs) =
    contains-insert_sorted k x (sort_strings xs)
    ∙ ap (λ (b : Bool). bytes_beq x k || b) (contains-sort_strings k xs)

-- each element before all that follow it
abbrev pub IsSorted : List (List ℕ) → Type 0
IsSorted [] = Unit
IsSorted (x ∷ xs) = All (λ y. bytes_leb x y ≡ true) xs × IsSorted xs

All-insert_sorted :
    (P : List ℕ → Type 0) (x : List ℕ) (ys : List (List ℕ))
    → P x
    → All P ys
    → All P (insert_sorted x ys)
unfolding insert_sorted
All-insert_sorted P x [] p h = (p, tt)
All-insert_sorted P x (y ∷ ys) p h = elim (Bool-cases (bytes_leb x y)) [
  | inl le ↦ rw le (p, h)
  | inr gt ↦ rw gt (h.0, All-insert_sorted P x ys p h.1)
]

All-le_trans :
    (x y : List ℕ) (ys : List (List ℕ))
    → bytes_leb x y ≡ true
    → All (λ z. bytes_leb y z ≡ true) ys
    → All (λ z. bytes_leb x z ≡ true) ys
All-le_trans x y [] h k = tt
All-le_trans x y (z ∷ ys) h k = (bytes_leb_trans x y z h k.0, All-le_trans x y ys h k.1)

insert_sorted-IsSorted :
    (x : List ℕ) (ys : List (List ℕ)) → IsSorted ys → IsSorted (insert_sorted x ys)
unfolding insert_sorted
insert_sorted-IsSorted x [] h = (tt, tt)
insert_sorted-IsSorted x (y ∷ ys) h = elim (Bool-cases (bytes_leb x y)) [
  | inl le ↦ rw le ((le, All-le_trans x y ys le h.0), h)
  | inr gt ↦ rw gt (
    All-insert_sorted (λ z. bytes_leb y z ≡ true) x ys (bytes_leb_total x y gt) h.0,
    insert_sorted-IsSorted x ys h.1,
  )
]

pub sort_strings-IsSorted : (xs : List (List ℕ)) → IsSorted (sort_strings xs)
unfolding sort_strings
sort_strings-IsSorted [] = tt
sort_strings-IsSorted (x ∷ xs) =
    insert_sorted-IsSorted x (sort_strings xs) (sort_strings-IsSorted xs)

last_of_sorted :
    (x : List ℕ) (xs : List (List ℕ))
    → IsSorted (x ∷ xs)
    → (m : List ℕ) × (last? (x ∷ xs) ≡ some m)
      × (contains m (x ∷ xs) ≡ true)
      × ((k : List ℕ) → contains k (x ∷ xs) ≡ true → bytes_leb k m ≡ true)
unfolding last? contains
last_of_sorted x [] h = (
  x,
  refl,
  ground (arith, bytes_beq_iff x x),
  λ k e. ground (arith, bytes_beq_iff x k, bytes_leb_refl k),
)
last_of_sorted x (y ∷ ys) h =
    let (m, last, member, above) = last_of_sorted y ys h.1 in
    (
      m,
      last,
      ground arith,
      λ k e. ground (
        arith,
        above k,
        bytes_beq_iff x k,
        bytes_beq_iff y y,
        bytes_leb_trans x y m h.0.0 (above y (ground (arith, bytes_beq_iff y y))),
      ),
    )

-- The last of the sorted list is the one that no other is above.
pub last-sort_strings :
    (m : List ℕ) (xs : List (List ℕ))
    → contains m xs ≡ true
    → ((k : List ℕ) → contains k xs ≡ true → bytes_leb k m ≡ true)
    → last? (sort_strings xs) ≡ some m
last-sort_strings m xs h top =
    go (sort_strings xs) (sort_strings-IsSorted xs) (λ k. contains-sort_strings k xs)
  where
    go :
        (ys : List (List ℕ))
        → IsSorted ys
        → ((k : List ℕ) → contains k ys ≡ contains k xs)
        → last? ys ≡ some m
    go [] s same = unfold contains in cc (same m, h)
    go (y ∷ ys) s same =
        let (m', last, member, above) = last_of_sorted y ys s in
        last
        ∙ ap some (bytes_leb_antisymm m' m (top m' (sym (same m') ∙ member)) (above m (same m ∙ h)))

pub last?-snoc {ℓ} : {A : Type ℓ} (xs : List A) (x : A) → last? (xs ++ x ∷ []) ≡ some x
unfolding last?
last?-snoc [] x = refl
last?-snoc (y ∷ []) x = refl
last?-snoc (y ∷ z ∷ xs) x = last?-snoc (z ∷ xs) x

-- A list is empty, or its last element stands at its last index.
pub last?-cases {ℓ} :
    {A : Type ℓ} (xs : List A)
    → ((xs ≡ []) × (last? xs ≡ none))
      ⊎ ((n : ℕ) × (x : A) × (length xs ≡ suc n) × (get_elem? xs n ≡ some x) × (last? xs ≡ some x))
unfolding last?
last?-cases [] = inl (refl, refl)
last?-cases (x ∷ []) = inr (0, x, refl, refl, refl)
last?-cases (x ∷ y ∷ xs) = go (last?-cases (y ∷ xs))
  where
    go :
        ((y ∷ xs ≡ []) × (last? (y ∷ xs) ≡ none))
          ⊎ ((n : ℕ) × (z : _) × (length (y ∷ xs) ≡ suc n)
              × (get_elem? (y ∷ xs) n ≡ some z)
              × (last? (y ∷ xs) ≡ some z))
        → ((x ∷ y ∷ xs ≡ []) × (last? (x ∷ y ∷ xs) ≡ none))
          ⊎ ((n : ℕ) × (z : _) × (length (x ∷ y ∷ xs) ≡ suc n)
              × (get_elem? (x ∷ y ∷ xs) n ≡ some z)
              × (last? (x ∷ y ∷ xs) ≡ some z))
    go (inl (e, _)) = cc
    go (inr (n, z, size, at, last)) = inr (suc n, z, ap suc size, at, last)

-- Nothing to sort has no last element.
pub last-sort_none :
    (xs : List (List ℕ))
    → ((k : List ℕ) → contains k xs ≡ true → ⊥)
    → last? (sort_strings xs) ≡ none
unfolding sort_strings last? contains
last-sort_none [] h = refl
last-sort_none (x ∷ xs) h = absurd (h x (ground (arith, bytes_beq_iff x x)))
