-- ===== src/Segment/FieldInput.antt =====
-- What `Build` of pkg/segment/writer.go hands to `EncodeHotcache` for a field, and the lookup of a term in it.

use s3search.Base.{
  ℕ, ◌+◌, ◌≡◌, refl, ap, ◌∙◌, arith, Bytes, List, map, get_elem?, bytes_eq, inl, inr,
}
use s3search.Base.{some, ok, Option-cases}
use s3search.Query.Bitmap.{Roaring, Fst}
use s3search.Query.Leaves.{lookup_term, lookup_fst, lookup_id}
use s3search.Segment.Hotcache.{FieldHotcache, HotcacheFieldInput}
use s3search.Segment.Accumulator.{FieldAccumulator}
use s3search.Segment.Build.{
  Codecs, TermRecord, Sections, group_of, offsets_of, number_terms, hotcache_input, avg_doclen,
}
use s3search.Segment.Found.{number_terms-found, get_elem?-map, HasTerm}
use s3search.Segment.Ranges.{CodecLaws}

module _ (rb : Roaring) (codecs : Codecs rb) where
  -- the input of one field
  pub record HasInput (post_base pos_base : ℕ) (trs : List TermRecord) (fa : FieldAccumulator rb)
      (input : HotcacheFieldInput) : Type 0 where
    pub name_is : input.name ≡ fa.name
    pub built : codecs.build_fst (number_terms 0 (group_of fa.name trs)) ≡ some input.fst_bytes
    pub table_is : input.term_offsets ≡ map (offsets_of post_base pos_base) (group_of fa.name trs)
    pub doclens_are : input.doclens ≡ fa.doclens
    pub avg_is : input.avg_doclen ≡ avg_doclen rb codecs fa.doclens

  pub hotcache_input-HasInput :
      (post_base pos_base : ℕ) (trs : List TermRecord) (fa : FieldAccumulator rb)
      (input : HotcacheFieldInput)
      → hotcache_input rb codecs post_base pos_base trs fa ≡ ok input
      → HasInput post_base pos_base trs fa input
  unfolding hotcache_input
  hotcache_input-HasInput post_base pos_base trs fa input e =
      elim (Option-cases (codecs.build_fst (number_terms 0 (group_of fa.name trs)))) [
        | inl failed ↦ absurd (cc (rw (failed, hotcache_input) at e))
        | inr (b, made) ↦
            let same : input ≡ record {
              name = fa.name;
              fst_bytes = b;
              term_offsets = map (offsets_of post_base pos_base) (group_of fa.name trs);
              doclens = fa.doclens;
              avg_doclen = avg_doclen rb codecs fa.doclens;
            } =
              cc (rw (made, hotcache_input) at e) in
            rw same (record {
              name_is = refl;
              built = made;
              table_is = refl;
              doclens_are = refl;
              avg_is = refl;
            })
      ]

  -- A term of the field is looked up to the offsets of its record.
  pub lookup_term-found :
      (post_base pos_base : ℕ) (fa : FieldAccumulator rb) (sec : Sections)
      (input : HotcacheFieldInput) (t : Bytes)
      → CodecLaws rb codecs
      → HasInput post_base pos_base sec.term_records fa input
      → HasTerm rb codecs fa t sec
      → (f : Fst) × (codecs.load_fst input.fst_bytes ≡ some f)
        × ((fhc : FieldHotcache)
            → fhc.fst ≡ some f
            → fhc.term_table ≡ input.term_offsets
            → (k : ℕ) × (tr : TermRecord) × (get_elem? (group_of fa.name sec.term_records) k
                ≡ some tr)
              × (tr.term ≡ t)
              × (lookup_term fhc t ≡ some (offsets_of post_base pos_base tr)))
  unfolding lookup_term
  lookup_term-found post_base pos_base fa sec input t laws h has =
      let (f, loads, gets) = laws.load-build _ _ h.built in
      let (k, tr, at, here, is) =
        number_terms-found t (group_of fa.name sec.term_records) 0 has.has_term in
      (
        f,
        loads,
        λ fhc fst_is table_is. (
          k,
          tr,
          here,
          is,
          ap (λ o. lookup_fst fhc o t) fst_is
              ∙ unfold lookup_fst in
                (ap (lookup_id fhc) (gets t ∙ at)
                  ∙ unfold lookup_id in
                    (ap (λ table. get_elem? table (0 + k)) (table_is ∙ h.table_is)
                      ∙ ap
                          (get_elem? (
                            map (offsets_of post_base pos_base)
                              (group_of fa.name sec.term_records)))
                          (omega arith)
                      ∙ get_elem?-map (offsets_of post_base pos_base)
                          (group_of fa.name sec.term_records) k here)),
        ),
      )
