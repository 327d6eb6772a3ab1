-- ===== src/Segment/Found.antt =====
-- The terms of a field that `Build` of pkg/segment/writer.go was given, looked up in the segment's files.

use s3search.Base.{
  ℕ, zero, suc, ◌+◌, ◌≡◌, refl, sym, ap, ◌∙◌, arith, Bytes, List, [], ◌∷◌, ◌++◌, map, All,
  get_elem?, true, ◌||◌, Bool-cases, inl, inr, lookup, contains, contains-append, bytes_eq,
  bytes_beq, bytes_beq_iff, =?_refl, sort_strings, contains-sort_strings,
}
use s3search.Base.{none, some, ok, >>=-eq-ok}
use s3search.Query.Bitmap.{Roaring}
use s3search.Segment.Accumulator.{FieldAccumulator}
use s3search.Segment.Build.{
  Codecs, TermRecord, Sections, keys_of, group_of, number_terms, new_record, record_term, add_term,
  add_terms, build_sections,
}
use s3search.Segment.Placed.{group_of-append, record_term-records, add_term-eq}

abbrev pub terms_of : List TermRecord → List Bytes
terms_of [] = []
terms_of (tr ∷ trs) = tr.term ∷ terms_of trs

terms_of-append : (xs ys : List TermRecord) → terms_of (xs ++ ys) ≡ terms_of xs ++ terms_of ys
terms_of-append [] ys = refl
terms_of-append (x ∷ xs) ys = ap (λ ts. x.term ∷ ts) (terms_of-append xs ys)

-- A term's id is the index of its record.
pub number_terms-found :
    (t : Bytes) (trs : List TermRecord) (j : ℕ)
    → contains t (terms_of trs) ≡ true
    → (k : ℕ) × (tr : TermRecord) × (lookup t (number_terms j trs) ≡ some (j + k))
      × (get_elem? trs k ≡ some tr)
      × (tr.term ≡ t)
unfolding lookup number_terms contains
number_terms-found t [] j h = cc
number_terms-found t (tr ∷ trs) j h = elim (Bool-cases (bytes_beq tr.term t)) [
  | inl same ↦ (0, tr, rw same (ap some (omega arith)), refl, (bytes_beq_iff tr.term t).0 same)
  | inr other ↦
      let (k, found, at, here, is) = number_terms-found t trs (suc j) (rw other at h) in
      (suc k, found, rw other (at ∙ ap some (omega arith)), here, is)
]

pub All-get {ℓ κ} :
    {A : Type ℓ} (P : A → Type κ) (xs : List A) (k : ℕ) {x : A}
    → All P xs
    → get_elem? xs k ≡ some x
    → P x
All-get P [] k h e = cc
All-get P (x ∷ xs) zero {x = y} h e = rw (← same) h.0
  where
    same : x ≡ y
    same = cc e
All-get P (x ∷ xs) (suc k) h e = All-get P xs k h.1 e

pub get_elem?-map {ℓ κ} :
    {A : Type ℓ} {B : Type κ} (f : A → B) (xs : List A) (k : ℕ) {x : A}
    → get_elem? xs k ≡ some x
    → get_elem? (map f xs) k ≡ some (f x)
get_elem?-map f [] k e = cc
get_elem?-map f (x ∷ xs) zero e = ap (λ o. elim o [ none ↦ none | some y ↦ some (f y) ]) e
get_elem?-map f (x ∷ xs) (suc k) e = get_elem?-map f xs k e

pub contains-keys_of {ℓ} :
    {V : Type ℓ} (t : Bytes) (m : List (Bytes × V)) {v : V}
    → lookup t m ≡ some v
    → contains t (keys_of m) ≡ true
unfolding lookup keys_of contains
contains-keys_of t [] e = cc
contains-keys_of t ((k, v) ∷ m) e = elim (Bool-cases (bytes_beq k t)) [
  | inl same ↦ rw same refl
  | inr other ↦ rw other (contains-keys_of t m (rw other at e))
]

module _ (rb : Roaring) (codecs : Codecs rb) where
  -- a record for the term is there
  pub record HasTerm (fa : FieldAccumulator rb) (t : Bytes) (sec : Sections) : Type 0 where
    pub has_term : contains t (terms_of (group_of fa.name sec.term_records)) ≡ true

  terms_more :
      (fa fa' : FieldAccumulator rb) (term pl : Bytes) (sec : Sections)
      → terms_of (group_of fa.name (record_term rb codecs fa' term pl sec).term_records)
        ≡ terms_of (group_of fa.name sec.term_records)
          ++ terms_of (group_of fa.name (new_record rb codecs fa' term pl sec ∷ []))
  terms_more fa fa' term pl sec =
      ap (λ trs. terms_of (group_of fa.name trs)) (record_term-records rb codecs fa' term pl sec)
      ∙ ap terms_of
          (group_of-append fa.name sec.term_records (new_record rb codecs fa' term pl sec ∷ []))
      ∙ terms_of-append (group_of fa.name sec.term_records) _

  add_term-HasTerm :
      (fa fa' : FieldAccumulator rb) (t term : Bytes) (sec sec' : Sections)
      → HasTerm fa t sec
      → add_term rb codecs fa' term sec ≡ ok sec'
      → HasTerm fa t sec'
  add_term-HasTerm fa fa' t term sec sec' h e =
      let (pl, marshalled, same) = add_term-eq rb codecs fa' term sec sec' e in
      rw same (record {
        has_term =
            ap (contains t) (terms_more fa fa' term pl sec)
            ∙ contains-append t (terms_of (group_of fa.name sec.term_records)) _
            ∙ rw (h.has_term) refl;
      })

  add_term_self :
      (fa : FieldAccumulator rb) (term : Bytes) (sec sec' : Sections)
      → add_term rb codecs fa term sec ≡ ok sec'
      → HasTerm fa term sec'
  add_term_self fa term sec sec' e =
      let (pl, marshalled, same) = add_term-eq rb codecs fa term sec sec' e in
      rw same (record {
        has_term =
            ap (contains term) (terms_more fa fa term pl sec)
            ∙ contains-append term (terms_of (group_of fa.name sec.term_records)) _
            ∙ ap (λ b. contains term (terms_of (group_of fa.name sec.term_records)) || b) (own pl)
            ∙ ground arith;
      })
    where
      own :
          (pl : Bytes)
          → contains term (terms_of (group_of fa.name (new_record rb codecs fa term pl sec ∷ [])))
            ≡ true
      own pl = unfold group_of new_record contains in rw (=?_refl fa.name, =?_refl term) refl

  add_terms-HasTerm :
      (fa fa' : FieldAccumulator rb) (t : Bytes) (terms : List Bytes) (sec sec' : Sections)
      → HasTerm fa t sec
      → add_terms rb codecs fa' terms sec ≡ ok sec'
      → HasTerm fa t sec'
  unfolding add_terms
  add_terms-HasTerm fa fa' t [] sec sec' h e = rw (← same) h
    where
      same : sec ≡ sec'
      same = cc e
  add_terms-HasTerm fa fa' t (term ∷ terms) sec sec' h e =
      let (next, first, rest) = >>=-eq-ok (add_term rb codecs fa' term sec) _ e in
      add_terms-HasTerm fa fa' t terms next sec' (add_term-HasTerm fa fa' t term sec next h first)
        rest

  add_terms-own :
      (fa : FieldAccumulator rb) (t : Bytes) (terms : List Bytes) (sec sec' : Sections)
      → contains t terms ≡ true
      → add_terms rb codecs fa terms sec ≡ ok sec'
      → HasTerm fa t sec'
  unfolding add_terms contains
  add_terms-own fa t [] sec sec' h e = cc
  add_terms-own fa t (term ∷ terms) sec sec' h e =
      let (next, first, rest) = >>=-eq-ok (add_term rb codecs fa term sec) _ e in
      elim (Bool-cases (bytes_beq term t)) [
        | inl same ↦
            let is : term ≡ t = (bytes_beq_iff term t).0 same in
            add_terms-HasTerm fa fa t terms next sec'
              (rw is at (add_term_self fa term sec next first)) rest
        | inr other ↦ add_terms-own fa t terms next sec' (rw other at h) rest
      ]

  build_sections-HasTerm :
      (fa : FieldAccumulator rb) (t : Bytes) (fas : List (FieldAccumulator rb))
      (sec sec' : Sections)
      → HasTerm fa t sec
      → build_sections rb codecs fas sec ≡ ok sec'
      → HasTerm fa t sec'
  unfolding build_sections
  build_sections-HasTerm fa t [] sec sec' h e = rw (← same) h
    where
      same : sec ≡ sec'
      same = cc e
  build_sections-HasTerm fa t (fa' ∷ fas) sec sec' h e =
      let (next, first, rest) =
        >>=-eq-ok (add_terms rb codecs fa' (sort_strings (keys_of fa'.posting_lists)) sec) _ e in
      build_sections-HasTerm fa t fas next sec' (add_terms-HasTerm fa fa' t _ sec next h first) rest

  -- every term of a field has a record
  pub build_sections-own :
      (fa : FieldAccumulator rb) (t : Bytes) (i : ℕ) (fas : List (FieldAccumulator rb))
      (sec sec' : Sections)
      → get_elem? fas i ≡ some fa
      → contains t (keys_of fa.posting_lists) ≡ true
      → build_sections rb codecs fas sec ≡ ok sec'
      → HasTerm fa t sec'
  unfolding build_sections
  build_sections-own fa t i [] sec sec' at h e = cc
  build_sections-own fa t zero (fa' ∷ fas) sec sec' at h e =
      let same : fa' ≡ fa = cc at in
      let (next, first, rest) =
        >>=-eq-ok (add_terms rb codecs fa' (sort_strings (keys_of fa'.posting_lists)) sec) _ e in
      build_sections-HasTerm fa t fas next sec'
        (add_terms-own fa t (sort_strings (keys_of fa.posting_lists)) sec next
          (contains-sort_strings t (keys_of fa.posting_lists) ∙ h)
          (ap
              (λ (a : FieldAccumulator rb).
                add_terms rb codecs a (sort_strings (keys_of a.posting_lists)) sec)
              (sym same)
            ∙ first))
        rest
  build_sections-own fa t (suc i) (fa' ∷ fas) sec sec' at h e =
      let (next, first, rest) =
        >>=-eq-ok (add_terms rb codecs fa' (sort_strings (keys_of fa'.posting_lists)) sec) _ e in
      build_sections-own fa t i fas next sec' at h rest
