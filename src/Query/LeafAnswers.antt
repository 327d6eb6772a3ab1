-- ===== src/Query/LeafAnswers.antt =====
-- The leaves of a query tree of pkg/query/exec.go are evaluated to the documents that match them.
use s3search.Base.{
  ℕ, ◌≡◌, refl, ap, ◌∙◌, arith, Bool, false, ◌&&◌, ◌||◌, Bytes, List, [], ◌∷◌, get_elem?, ◌==◌,
  ==_iff, ◌=?◌, bytes_eq,
}
use s3search.Base.{
  All, nat_eq, contains, lookup, has_prefix, Option, none, some, Outcome, ok, Bool-cases,
  Option-cases, inl, inr,
}
use s3search.Segment.Hotcache.{FieldHotcache, Hotcache, TermOffsets}
use s3search.Query.Bitmap.{Roaring, Fst}
use s3search.Query.Leaves.{
  Reader, TermData, all_fields, lookup_id, lookup_fst, lookup_term, phrase_match,
}
use s3search.Query.Leaves.{
  and_terms, add_matches, match_phrases, or_into, or_new, offsets_bitmap, term_bitmap_field,
  union_fields,
}
use s3search.Query.Leaves.{
  one_field, term_bitmap, union_keys, prefix_fst, prefix_field, prefix_bitmap, term_data,
  collect_terms, phrase_terms, phrase_field, phrase_bitmap,
}
use s3search.Query.Matches.{
  Segment, IsServed, FieldServed, Serves, occurs, field_matches, any_field, term_matches, any_key,
  fst_matches, prefix_in, terms_data, all_occur, adjacent, phrase_in, phrase_matches,
}

module _ (rb : Roaring) {E : Type 0} (r : Reader rb E) (seg : Segment rb) (hc : Hotcache)
    (serves : Serves rb r seg hc) (tokenize : Bytes → List Bytes) where
  -- An evaluation that succeeds with the documents for which `p` is true.
  pub record Gives (e : Outcome E rb.Bitmap) (p : ℕ → Bool) : Type 0 where
    pub bitmap : rb.Bitmap
    pub is_ok : e ≡ ok bitmap
    pub has_is : (d : ℕ) → rb.has d bitmap ≡ p d

  new-Gives : Gives (ok rb.new) (λ d. false)
  new-Gives = record { bitmap = rb.new; is_ok = refl; has_is = rb.has-new }

  -- the offsets that are found for a term stand in the table
  lookup_term-IsServed :
      (fhc : FieldHotcache) (t : Bytes) (to : TermOffsets)
      → FieldServed rb r seg fhc
      → lookup_term fhc t ≡ some to
      → IsServed rb r seg to
  unfolding lookup_term lookup_fst lookup_id
  lookup_term-IsServed fhc t to served e = in_fst fhc.fst e
    where
      in_table : (id : Option ℕ) → lookup_id fhc id ≡ some to → IsServed rb r seg to
      in_table none e' = absurd (cc e')
      in_table (some id) e' = served id to e'

      in_fst : (o : Option Fst) → lookup_fst fhc o t ≡ some to → IsServed rb r seg to
      in_fst none e' = absurd (cc e')
      in_fst (some fst) e' = in_table (fst.get t) e'

  offsets_bitmap-Gives :
      (o : Option TermOffsets)
      → ((to : TermOffsets) → o ≡ some to → IsServed rb r seg to)
      → Gives (offsets_bitmap rb r o) (λ d. occurs rb seg hc tokenize d o)
  unfolding offsets_bitmap
  offsets_bitmap-Gives none served = new-Gives
  offsets_bitmap-Gives (some to) served = record {
    bitmap = seg.postings to;
    is_ok = (served to refl).postings_read;
    has_is = λ d. refl;
  }

  one_field-Gives :
      (f : Option FieldHotcache) (t : Bytes)
      → ((fhc : FieldHotcache) → f ≡ some fhc → FieldServed rb r seg fhc)
      → Gives (one_field rb r f t) (λ d. field_matches rb seg hc tokenize d f t)
  unfolding one_field term_bitmap_field
  one_field-Gives none t served = new-Gives
  one_field-Gives (some fhc) t served =
      offsets_bitmap-Gives (lookup_term fhc t)
        (λ to. lookup_term-IsServed fhc t to (served fhc refl))

  has_so_far : ℕ → Option rb.Bitmap → Bool
  has_so_far d none = false
  has_so_far d (some bm) = rb.has d bm

  has-or_into :
      (d : ℕ) (u : Option rb.Bitmap) (bm : rb.Bitmap)
      → rb.has d (or_into rb u bm) ≡ (has_so_far d u || rb.has d bm)
  unfolding or_into has_so_far
  has-or_into d none bm = refl
  has-or_into d (some u) bm = rb.has-or d u bm

  has-or_new : (d : ℕ) (u : Option rb.Bitmap) → rb.has d (or_new rb u) ≡ has_so_far d u
  unfolding or_new has_so_far
  has-or_new d none = rb.has-new d
  has-or_new d (some u) = refl

  union_fields_lem :
      (t : Bytes) (fs : List FieldHotcache) (u : Option rb.Bitmap)
      → All (FieldServed rb r seg) fs
      → (u' : Option rb.Bitmap) × (union_fields rb r t fs u ≡ ok u')
        × ((d : ℕ) → has_so_far d u' ≡ (has_so_far d u || any_field rb seg hc tokenize d fs t))
  unfolding union_fields term_bitmap_field
  union_fields_lem t [] u served = (u, refl, λ d. ground arith)
  union_fields_lem t (fhc ∷ fs) u (served, rest) =
      let g =
        offsets_bitmap-Gives (lookup_term fhc t) (λ to. lookup_term-IsServed fhc t to served) in
      let (u', run, has_is) = union_fields_lem t fs (some (or_into rb u g.bitmap)) rest in
      (
        u',
        rw g.is_ok run,
        λ d. has_is d ∙ unfold has_so_far in ground (arith, has-or_into d u g.bitmap, g.has_is d),
      )

  pub term_bitmap-Gives :
      (field t : Bytes)
      → Gives (term_bitmap rb r hc field t) (λ d. term_matches rb seg hc tokenize d field t)
  unfolding term_bitmap term_matches
  term_bitmap-Gives field t = elim (Bool-cases (field =? all_fields)) [
    | inl all ↦
        let (u, run, has_is) = union_fields_lem t hc.fields none serves.of_fields in
        rw all (record {
          bitmap = or_new rb u;
          is_ok = rw run refl;
          has_is = λ d. has-or_new d u ∙ has_is d ∙ unfold has_so_far in refl;
        })
    | inr one ↦ rw one (one_field-Gives (lookup field hc.field_index) t (serves.of_index field))
  ]

  union_keys_lem :
      (fhc : FieldHotcache) (start : Bytes) (keys : List (Bytes × ℕ)) (u : rb.Bitmap)
      → FieldServed rb r seg fhc
      → Gives
          (union_keys rb r fhc start keys u)
          (λ d. rb.has d u || any_key rb seg hc tokenize d fhc start keys)
  unfolding union_keys
  union_keys_lem fhc start [] u served = record {
    bitmap = u;
    is_ok = refl;
    has_is = λ d. ground arith;
  }
  union_keys_lem fhc start ((key, id) ∷ keys) u served = elim (Bool-cases (has_prefix start key)) [
    | inl pre ↦ elim (Option-cases (get_elem? fhc.term_table id)) [
      | inl missing ↦
          let g = union_keys_lem fhc start keys u served in
          rw (pre, missing) (record { bitmap = g.bitmap; is_ok = g.is_ok; has_is = g.has_is })
      | inr (to, at) ↦
          let g = union_keys_lem fhc start keys (rb.or u (seg.postings to)) served in
          rw (pre, at)
            (record {
              bitmap = g.bitmap;
              is_ok = rw (served id to at).postings_read g.is_ok;
              has_is = λ d. g.has_is d ∙ ground (arith, rb.has-or d u (seg.postings to));
            })
    ]
    | inr other ↦ rw other (record { bitmap = u; is_ok = refl; has_is = λ d. ground arith })
  ]

  prefix_fst-Gives :
      (fhc : FieldHotcache) (o : Option Fst) (start : Bytes)
      → FieldServed rb r seg fhc
      → Gives (prefix_fst rb r fhc o start) (λ d. fst_matches rb seg hc tokenize d fhc o start)
  unfolding prefix_fst
  prefix_fst-Gives fhc none start served = new-Gives
  prefix_fst-Gives fhc (some fst) start served =
      let g = union_keys_lem fhc start (fst.iterator start) rb.new served in
      record {
        bitmap = g.bitmap;
        is_ok = g.is_ok;
        has_is = λ d. g.has_is d ∙ rw (rb.has-new d) refl;
      }

  prefix_field-Gives :
      (f : Option FieldHotcache) (start : Bytes)
      → ((fhc : FieldHotcache) → f ≡ some fhc → FieldServed rb r seg fhc)
      → Gives (prefix_field rb r f start) (λ d. prefix_in rb seg hc tokenize d f start)
  unfolding prefix_field
  prefix_field-Gives none start served = new-Gives
  prefix_field-Gives (some fhc) start served = prefix_fst-Gives fhc fhc.fst start (served fhc refl)

  pub prefix_bitmap-Gives :
      (field start : Bytes)
      → Gives
          (prefix_bitmap rb r hc field start)
          (λ d. prefix_in rb seg hc tokenize d (lookup field hc.field_index) start)
  unfolding prefix_bitmap
  prefix_bitmap-Gives field start =
      prefix_field-Gives (lookup field hc.field_index) start (serves.of_index field)

  collect_terms_lem :
      (fhc : FieldHotcache) (terms : List Bytes)
      → FieldServed rb r seg fhc
      → collect_terms rb r fhc terms ≡ ok (terms_data rb seg hc tokenize fhc terms)
  unfolding collect_terms term_data
  collect_terms_lem fhc [] served = refl
  collect_terms_lem fhc (t ∷ ts) served = elim (Option-cases (lookup_term fhc t)) [
    | inl missing ↦ rw (missing, collect_terms) refl
    | inr (to, at) ↦
        rw
          (
            at,
            collect_terms,
            (lookup_term-IsServed fhc t to served at).postings_read,
            (lookup_term-IsServed fhc t to served at).positions_read,
            collect_terms_lem fhc ts served,
          )
          (elim (Option-cases (terms_data rb seg hc tokenize fhc ts)) [
            | inl gone ↦ rw gone refl
            | inr (tds, there) ↦ rw there refl
          ])
  ]

  has-and_terms :
      (d : ℕ) (bm : rb.Bitmap) (tds : List (TermData rb))
      → rb.has d (and_terms rb bm tds) ≡ (rb.has d bm && all_occur rb seg hc tokenize d tds)
  unfolding and_terms
  has-and_terms d bm [] = ground arith
  has-and_terms d bm (td ∷ tds) =
      has-and_terms d (rb.and bm td.pl) tds ∙ ground (arith, rb.has-and d bm td.pl)

  has-add_matches :
      (d : ℕ) (tds : List (TermData rb)) (ds : List ℕ) (bm : rb.Bitmap)
      → rb.has d (add_matches rb tds ds bm)
        ≡ (rb.has d bm || (contains d ds && phrase_match rb d tds))
  unfolding add_matches contains
  has-add_matches d tds [] bm = ground arith
  has-add_matches d tds (c ∷ ds) bm = elim (Bool-cases (c == d)) [
    | inl same ↦ ground (
      arith,
      ap (λ x. phrase_match rb x tds) ((==_iff c d).0 same),
      has-add_matches d tds ds (rb.add c bm),
      has-add_matches d tds ds bm,
      rb.has-add d c bm,
    )
    | inr other ↦ ground (
      arith,
      has-add_matches d tds ds (rb.add c bm),
      has-add_matches d tds ds bm,
      rb.has-add d c bm,
    )
  ]

  has-match_phrases :
      (d : ℕ) (tds : List (TermData rb))
      → rb.has d (match_phrases rb tds)
        ≡ (all_occur rb seg hc tokenize d tds && phrase_match rb d tds)
  unfolding match_phrases
  has-match_phrases d [] = rb.has-new d ∙ unfold phrase_match in refl
  has-match_phrases d (td ∷ tds) =
      has-add_matches d (td ∷ tds) (rb.elements (and_terms rb td.pl tds)) rb.new
      ∙ rw
          (rb.has-new d, rb.contains-elements d (and_terms rb td.pl tds), has-and_terms d td.pl tds)
          refl

  has-phrase_terms :
      (d : ℕ) (o : Option (List (TermData rb)))
      → rb.has d (phrase_terms rb r o) ≡ adjacent rb seg hc tokenize d o
  unfolding phrase_terms
  has-phrase_terms d none = rb.has-new d
  has-phrase_terms d (some tds) = has-match_phrases d tds

  phrase_field-Gives :
      (f : Option FieldHotcache) (terms : List Bytes)
      → ((fhc : FieldHotcache) → f ≡ some fhc → FieldServed rb r seg fhc)
      → Gives (phrase_field rb r f terms) (λ d. phrase_in rb seg hc tokenize d f terms)
  unfolding phrase_field
  phrase_field-Gives none terms served = new-Gives
  phrase_field-Gives (some fhc) terms served = record {
    bitmap = phrase_terms rb r (terms_data rb seg hc tokenize fhc terms);
    is_ok = rw (collect_terms_lem fhc terms (served fhc refl)) refl;
    has_is = λ d. has-phrase_terms d (terms_data rb seg hc tokenize fhc terms);
  }

  pub phrase_bitmap-Gives :
      (field : Bytes) (terms : List Bytes)
      → Gives
          (phrase_bitmap rb r hc field terms)
          (λ d. phrase_matches rb seg hc tokenize d field terms)
  unfolding phrase_bitmap
  phrase_bitmap-Gives field [] = new-Gives
  phrase_bitmap-Gives field (t ∷ ts) =
      phrase_field-Gives (lookup field hc.field_index) (t ∷ ts) (serves.of_index field)
