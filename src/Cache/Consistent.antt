-- ===== src/Cache/Consistent.antt =====
-- The map and the list of pkg/cache/hotcache.go when an entry moves to the front.
use Prim.{tt}
use s3search.Base.{
  ℕ, ◌≡◌, refl, sym, ap, ◌∙◌, arith, Bytes, List, [], ◌∷◌, ◌==◌, ==_iff, ◌=?◌, bytes_eq,
  bytes_beq_iff, nat_eq,
}
use s3search.Base.{remove, if◌then◌else◌, none, some, Option-cases, Bool-cases, inl, inr, =?_refl}
use s3search.Cache.{
  Element, HotcacheLru, find_element, without_element, to_front, get_at, get, put_at, put,
}
use s3search.Cache.Recency.{
  view, find_key, IsDistinct, id_of, IsConsistent, find_key-key, find_key-element, element_of-key,
  view-without_element,
}

module _ {ℓ} {A : Type ℓ} where
  find_key-subset :
      (k : Bytes) (id : ℕ) (es : List (Element A))
      → find_key k es ≡ none
      → find_key k (without_element id es) ≡ none
  unfolding find_key without_element
  find_key-subset k id [] h = refl
  find_key-subset k id (e ∷ es) h = ground (arith, find_key-subset k id es)

  find_element-subset :
      (n id : ℕ) (es : List (Element A))
      → find_element n es ≡ none
      → find_element n (without_element id es) ≡ none
  unfolding find_element without_element
  find_element-subset n id [] h = refl
  find_element-subset n id (e ∷ es) h = ground (arith, find_element-subset n id es)

  without_element-IsDistinct :
      (id : ℕ) (es : List (Element A)) → IsDistinct es → IsDistinct (without_element id es)
  unfolding without_element
  without_element-IsDistinct id [] d = tt
  without_element-IsDistinct id (e ∷ es) (dk, di, d) = elim (Bool-cases (e.id == id)) [
    | inl same ↦ rw same d
    | inr other ↦ rw other (
      find_key-subset e.key id es dk,
      find_element-subset e.id id es di,
      without_element-IsDistinct id es d,
    )
  ]

  find_element-without :
      (id : ℕ) (es : List (Element A))
      → IsDistinct es
      → find_element id (without_element id es) ≡ none
  unfolding find_element without_element
  find_element-without id [] d = refl
  find_element-without id (e ∷ es) (dk, di, d) = elim (Bool-cases (e.id == id)) [
    | inl same ↦ rw same (ap (λ n. find_element n es) (sym ((==_iff e.id id).0 same)) ∙ di)
    | inr other ↦ rw (other, other) (find_element-without id es d)
  ]

  -- what is left under the keys
  find_key-without :
      (k j : Bytes) (es : List (Element A)) (e : Element A)
      → IsDistinct es
      → find_key k es ≡ some e
      → find_key j (without_element e.id es) ≡ (if k =? j then none else find_key j es)
  unfolding find_key without_element
  find_key-without k j [] e d h = cc h
  find_key-without k j (f ∷ es) e (dk, di, d) h = elim (Bool-cases (f.key =? k)) [
    | inl same ↦
        let eq : f ≡ e = cc (rw same at h) in
        let is_key = (bytes_beq_iff f.key k).0 same in
        rw ((==_iff f.id e.id).1 (ap (λ (x : Element A). x.id) eq)) (elim (Bool-cases (k =? j)) [
          | inl here ↦
              rw here (ap (λ i. find_key i es) (sym ((bytes_beq_iff k j).0 here) ∙ sym is_key) ∙ dk)
          | inr there ↦ rw there (ground (arith, bytes_beq_iff f.key j, bytes_beq_iff k j, is_key))
        ])
    | inr other ↦
        let found = rw other at h in
        elim (Bool-cases (f.id == e.id)) [
          | inl same_id ↦ absurd (
              cc (
                di,
                find_key-element k es e d found,
                ap (λ n. find_element n es) ((==_iff f.id e.id).0 same_id),
              ))
          | inr other_id ↦ rw other_id (
              ground (
                arith,
                find_key-without k j es e d found,
                bytes_beq_iff f.key j,
                bytes_beq_iff k j,
                bytes_beq_iff f.key k,
              ))
        ]
  ]

  -- An entry with the same number and key in its place at the front.
  to_front-IsConsistent :
      (h : HotcacheLru A) (k : Bytes) (e e' : Element A)
      → IsConsistent h
      → find_key k h.order ≡ some e
      → e'.id ≡ e.id
      → e'.key ≡ k
      → IsConsistent (record h { order = to_front e' h.order })
  unfolding to_front find_key
  to_front-IsConsistent h k e e' c there id key = rw id (record {
    linked = λ j.
        c.linked j
        ∙ rw (key, find_key-without k j h.order e c.distinct there)
            (elim (Bool-cases (k =? j)) [
              | inl here ↦ rw here (
                  ap id_of
                    (ap (λ i. find_key i h.order) (sym ((bytes_beq_iff k j).0 here)) ∙ there))
              | inr elsewhere ↦ rw elsewhere refl
            ]);
    distinct = (
      rw (key, find_key-without k k h.order e c.distinct there, =?_refl k) refl,
      find_element-without e.id h.order c.distinct,
      without_element-IsDistinct e.id h.order c.distinct,
    );
  })

  -- `Get` keeps the map and the list of a consistent cache consistent.
  pub get-IsConsistent : (h : HotcacheLru A) (k : Bytes) → IsConsistent h → IsConsistent (get h k).0
  unfolding get get_at
  get-IsConsistent h k c = elim (Option-cases (find_key k h.order)) [
    | inl missing ↦ rw (element_of-key h k c, missing) c
    | inr (e, there) ↦
        rw (element_of-key h k c, there)
          (to_front-IsConsistent h k e e c there refl (find_key-key k h.order e there))
  ]

  -- `Put` under a key that the cache holds keeps it consistent, and in the view the key moves to the front
  -- with its new hotcache, while nothing is evicted.
  pub put-hit :
      (h : HotcacheLru A) (k : Bytes) (v : A) (e : Element A)
      → IsConsistent h
      → find_key k h.order ≡ some e
      → (h' : HotcacheLru A) × (put h k v ≡ some h')
        × IsConsistent h'
        × (view h'.order ≡ (k, v) ∷ remove k (view h.order))
  unfolding put put_at
  put-hit h k v e c there = (
    record h { order = to_front (record e { hc = v }) h.order },
    rw (element_of-key h k c, there) refl,
    to_front-IsConsistent h k e (record e { hc = v }) c there refl (find_key-key k h.order e there),
    unfold to_front in
        rw (view-without_element k h.order e c.distinct there)
          (ap (λ j. (j, v) ∷ remove k (view h.order)) (find_key-key k h.order e there)),
  )
