-- ===== src/Compactor/Smallest.antt =====
-- `sort.Slice` by bytes in `pickMergeCandidates` of pkg/index/compactor.go, and its first four.
use Prim.{tt}
use s3search.Base.{
  ℕ, zero, suc, ◌≤◌, ◌≡◌, refl, ap, ◌∙◌, arith, List, [], ◌∷◌, ◌++◌, length, length-take, take,
  drop, take-append-drop, All, leb, leb→le, Bool, Bool-cases, inl, inr, if◌then◌else◌,
}
use s3search.Manifest.Versions.{SegmentMeta}
use s3search.Compactor.Pick.{insert_by_bytes, sort_by_bytes}

abbrev pub count : (SegmentMeta → Bool) → List SegmentMeta → ℕ
count f [] = 0
count f (s ∷ segs) = if f s then suc (count f segs) else count f segs

-- the same segments, each as often, in another order
abbrev pub IsRearranged : List SegmentMeta → List SegmentMeta → Type 0
IsRearranged segs others = (f : SegmentMeta → Bool) → count f segs ≡ count f others

abbrev pub Below : SegmentMeta → List SegmentMeta → Type 0
Below s = All (λ t. s.bytes ≤ t.bytes)

abbrev IsAscending : List SegmentMeta → Type 0
IsAscending [] = Unit
IsAscending (s ∷ segs) = Below s segs × IsAscending segs

count-insert_by_bytes :
    (f : SegmentMeta → Bool) (s : SegmentMeta) (segs : List SegmentMeta)
    → count f (insert_by_bytes s segs) ≡ count f (s ∷ segs)
unfolding insert_by_bytes
count-insert_by_bytes f s [] = refl
count-insert_by_bytes f s (t ∷ segs) = ground (arith, count-insert_by_bytes f s segs)

count-sort_by_bytes : (segs : List SegmentMeta) → IsRearranged (sort_by_bytes segs) segs
unfolding sort_by_bytes
count-sort_by_bytes [] f = refl
count-sort_by_bytes (s ∷ segs) f =
    ground (arith, count-insert_by_bytes f s (sort_by_bytes segs), count-sort_by_bytes segs f)

Below-trans :
    (s t : SegmentMeta) (segs : List SegmentMeta) → s.bytes ≤ t.bytes → Below t segs → Below s segs
Below-trans s t [] le h = tt
Below-trans s t (u ∷ segs) le (first, h) = (omega (arith, le, first), Below-trans s t segs le h)

Below-insert_by_bytes :
    (u s : SegmentMeta) (segs : List SegmentMeta)
    → u.bytes ≤ s.bytes
    → Below u segs
    → Below u (insert_by_bytes s segs)
unfolding insert_by_bytes
Below-insert_by_bytes u s [] le h = (le, tt)
Below-insert_by_bytes u s (t ∷ segs) le (first, h) = elim (Bool-cases (leb s.bytes t.bytes)) [
  | inl before ↦ rw before (le, (first, h))
  | inr behind ↦ rw behind (first, Below-insert_by_bytes u s segs le h)
]

insert_by_bytes-IsAscending :
    (s : SegmentMeta) (segs : List SegmentMeta)
    → IsAscending segs
    → IsAscending (insert_by_bytes s segs)
unfolding insert_by_bytes
insert_by_bytes-IsAscending s [] h = (tt, tt)
insert_by_bytes-IsAscending s (t ∷ segs) (below, h) = elim (Bool-cases (leb s.bytes t.bytes)) [
  | inl before ↦
      let le = leb→le s.bytes t.bytes before in
      rw before ((le, Below-trans s t segs le below), (below, h))
  | inr behind ↦ rw behind (
    Below-insert_by_bytes t s segs (ground (arith, behind)) below,
    insert_by_bytes-IsAscending s segs h,
  )
]

sort_by_bytes-IsAscending : (segs : List SegmentMeta) → IsAscending (sort_by_bytes segs)
unfolding sort_by_bytes
sort_by_bytes-IsAscending [] = tt
sort_by_bytes-IsAscending (s ∷ segs) =
    insert_by_bytes-IsAscending s (sort_by_bytes segs) (sort_by_bytes-IsAscending segs)

Below-drop :
    (s : SegmentMeta) (n : ℕ) (segs : List SegmentMeta) → Below s segs → Below s (drop n segs)
Below-drop s zero segs h = h
Below-drop s (suc n) [] h = tt
Below-drop s (suc n) (t ∷ segs) (first, h) = Below-drop s n segs h

front-Below :
    (n : ℕ) (segs : List SegmentMeta)
    → IsAscending segs
    → All (λ s. Below s (drop n segs)) (take n segs)
front-Below zero segs h = tt
front-Below (suc n) [] h = tt
front-Below (suc n) (s ∷ segs) (below, h) = (Below-drop s n segs below, front-Below n segs h)

length-insert_by_bytes :
    (s : SegmentMeta) (segs : List SegmentMeta)
    → length (insert_by_bytes s segs) ≡ suc (length segs)
unfolding insert_by_bytes
length-insert_by_bytes s [] = refl
length-insert_by_bytes s (t ∷ segs) = ground (arith, length-insert_by_bytes s segs)

length-sort_by_bytes : (segs : List SegmentMeta) → length (sort_by_bytes segs) ≡ length segs
unfolding sort_by_bytes
length-sort_by_bytes [] = refl
length-sort_by_bytes (s ∷ segs) =
    omega (arith, length-insert_by_bytes s (sort_by_bytes segs), length-sort_by_bytes segs)

-- The `n` smallest segments, and the others.
pub record AreSmallest (n : ℕ) (segs picked : List SegmentMeta) : Type 0 where
  pub others : List SegmentMeta
  pub rearranged : IsRearranged (picked ++ others) segs
  pub size : length picked ≡ n
  pub below : All (λ s. Below s others) picked

pub take-sort_by_bytes-AreSmallest :
    (n : ℕ) (segs : List SegmentMeta)
    → n ≤ length segs
    → AreSmallest n segs (take n (sort_by_bytes segs))
take-sort_by_bytes-AreSmallest n segs enough = record {
  others = drop n (sort_by_bytes segs);
  rearranged =
      λ f. ap (count f) (take-append-drop n (sort_by_bytes segs)) ∙ count-sort_by_bytes segs f;
  size = omega (arith, length-take n (sort_by_bytes segs), length-sort_by_bytes segs);
  below = front-Below n (sort_by_bytes segs) (sort_by_bytes-IsAscending segs);
}
