-- ===== src/Cache/Recency.antt =====
-- The cache of pkg/cache/hotcache.go as a list of keys with their hotcaches, the most recently used first.

use s3search.Base.{
  ℕ, ◌≡◌, refl, sym, ap, ◌∙◌, arith, Bytes, List, [], ◌∷◌, ◌==◌, ==_iff, ◌=?◌, bytes_eq,
  bytes_beq_iff, nat_eq,
}
use s3search.Base.{
  lookup, remove, if◌then◌else◌, Option, none, some, Option-cases, Bool-cases, inl, inr, ◌⊎◌,
}
use s3search.Cache.{
  Element, HotcacheLru, find_element, without_element, to_front, get_at, element_of, get,
}

module _ {ℓ} {A : Type ℓ} where
  abbrev pub view : List (Element A) → List (Bytes × A)
  view [] = []
  view (e ∷ es) = (e.key, e.hc) ∷ view es

  -- the element with a key
  unfoldable pub find_key : Bytes → List (Element A) → Option (Element A)
  find_key k [] = none
  find_key k (e ∷ es) = let rest = find_key k es in if e.key =? k then some e else rest

  abbrev pub IsDistinct : List (Element A) → Type ℓ
  IsDistinct [] = Unit
  IsDistinct (e ∷ es) = (find_key e.key es ≡ none) × (find_element e.id es ≡ none) × IsDistinct es

  abbrev pub id_of : Option (Element A) → Option ℕ
  id_of none = none
  id_of (some e) = some e.id

  -- The map and the list are about the same entries, and no key or entry occurs twice.
  pub record IsConsistent (h : HotcacheLru A) : Type ℓ where
    pub linked : (k : Bytes) → lookup k h.items ≡ id_of (find_key k h.order)
    pub distinct : IsDistinct h.order

  pub find_key-key :
      (k : Bytes) (es : List (Element A)) (e : Element A) → find_key k es ≡ some e → e.key ≡ k
  unfolding find_key
  find_key-key k [] e h = cc h
  find_key-key k (f ∷ es) e h = elim (Bool-cases (f.key =? k)) [
    | inl same ↦
        let eq : f ≡ e = cc (rw same at h) in
        sym (ap (λ (x : Element A). x.key) eq) ∙ (bytes_beq_iff f.key k).0 same
    | inr other ↦ find_key-key k es e (rw other at h)
  ]

  pub find_key-element :
      (k : Bytes) (es : List (Element A)) (e : Element A)
      → IsDistinct es
      → find_key k es ≡ some e
      → find_element e.id es ≡ some e
  unfolding find_key find_element
  find_key-element k [] e d h = cc h
  find_key-element k (f ∷ es) e d h = elim (Bool-cases (f.key =? k)) [
    | inl same ↦
        let eq : f ≡ e = cc (rw same at h) in
        rw ((==_iff f.id e.id).1 (ap (λ (x : Element A). x.id) eq)) (ap some eq)
    | inr other ↦
        let below = find_key-element k es e d.2 (rw other at h) in
        elim (Bool-cases (f.id == e.id)) [
          | inl same_id ↦
              absurd (cc (d.1, below, ap (λ n. find_element n es) ((==_iff f.id e.id).0 same_id)))
          | inr other_id ↦ rw other_id below
        ]
  ]

  remove-absent :
      (k : Bytes) (es : List (Element A)) → find_key k es ≡ none → remove k (view es) ≡ view es
  unfolding find_key remove
  remove-absent k [] h = refl
  remove-absent k (e ∷ es) h = ground (arith, remove-absent k es)

  pub view-without_element :
      (k : Bytes) (es : List (Element A)) (e : Element A)
      → IsDistinct es
      → find_key k es ≡ some e
      → view (without_element e.id es) ≡ remove k (view es)
  unfolding find_key without_element remove
  view-without_element k [] e d h = cc h
  view-without_element k (f ∷ es) e d h = elim (Bool-cases (f.key =? k)) [
    | inl same ↦
        let eq : f ≡ e = cc (rw same at h) in
        let is_key = (bytes_beq_iff f.key k).0 same in
        rw (same, (==_iff f.id e.id).1 (ap (λ (x : Element A). x.id) eq))
          (sym (remove-absent k es (ap (λ j. find_key j es) (sym is_key) ∙ d.0)))
    | inr other ↦
        let found = rw other at h in
        elim (Bool-cases (f.id == e.id)) [
          | inl same_id ↦ absurd (
              cc (
                d.1,
                find_key-element k es e d.2 found,
                ap (λ n. find_element n es) ((==_iff f.id e.id).0 same_id),
              ))
          | inr other_id ↦
              rw (other, other_id)
                (ap (λ m. (f.key, f.hc) ∷ m) (view-without_element k es e d.2 found))
        ]
  ]

  hc_of : Option (Element A) → Option A
  hc_of none = none
  hc_of (some e) = some e.hc

  lookup-view : (k : Bytes) (es : List (Element A)) → lookup k (view es) ≡ hc_of (find_key k es)
  unfolding lookup find_key hc_of
  lookup-view k [] = refl
  lookup-view k (e ∷ es) = ground (arith, lookup-view k es)

  pub element_of-key :
      (h : HotcacheLru A) (k : Bytes)
      → IsConsistent h
      → element_of h (lookup k h.items) ≡ find_key k h.order
  unfolding element_of
  element_of-key h k c = elim (Option-cases (find_key k h.order)) [
    | inl missing ↦ rw (c.linked k, missing) refl
    | inr (e, there) ↦ rw (c.linked k, there) (find_key-element k h.order e c.distinct there)
  ]

  -- In a consistent cache `Get` gives what the view holds under the key, and nothing under a key that it does
  -- not hold; a hit moves the key to the front of the view, and a miss changes nothing.
  pub get_lem :
      (h : HotcacheLru A) (k : Bytes)
      → IsConsistent h
      → ((get h k).1 ≡ lookup k (view h.order))
        × ((get h k ≡ (h, none))
            ⊎ ((v : A) × ((get h k).1 ≡ some v)
                × (view (get h k).0.order ≡ (k, v) ∷ remove k (view h.order))))
  unfolding get get_at to_front hc_of
  get_lem h k c = elim (Option-cases (find_key k h.order)) [
    | inl missing ↦
        rw (element_of-key h k c, missing, lookup-view k h.order, missing) (refl, inl refl)
    | inr (e, there) ↦
        rw (element_of-key h k c, there, lookup-view k h.order, there)
          (
            refl,
            inr (
              e.hc,
              refl,
              rw (view-without_element k h.order e c.distinct there)
                  (ap (λ j. (j, e.hc) ∷ remove k (view h.order)) (find_key-key k h.order e there)),
            ),
          )
  ]
