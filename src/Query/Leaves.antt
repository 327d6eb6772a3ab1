-- ===== src/Query/Leaves.antt =====
-- `termBitmap`, `termBitmapField`, `prefixBitmap`, `phraseBitmap` and `phraseMatch` of pkg/query/exec.go, and
-- what they read of a segment's hotcache. A bitmap is fresh from the reader, so that those that change it
-- in place share it with nobody. The scores, which are floating-point numbers, are left out.
use s3search.Base.{
  ℕ, suc, ◌+◌, ◌%◌, ◌^◌, Bool, true, false, Bytes, List, [], ◌∷◌, get_elem?, ltb, ◌==◌, ◌=?◌,
  bytes_eq, nat_eq,
}
use s3search.Base.{
  lookup, insert, has_prefix, if◌then◌else◌, Option, none, some, Outcome, ok, ◌>>=◌,
}
use s3search.Postings.Positions.{PositionsEntry}
use s3search.Query.Bitmap.{Roaring, Fst}
use s3search.Segment.Hotcache.{TermOffsets, FieldHotcache, Hotcache}

-- `GetPostings` and `GetPositions` of a segment's reader
pub record Reader (rb : Roaring) (E : Type 0) : Type 0 where
  pub get_postings : TermOffsets → Outcome E rb.Bitmap
  pub get_positions : TermOffsets → Outcome E (List PositionsEntry)

-- "_all"
abbrev pub all_fields : Bytes
all_fields = 95 ∷ 97 ∷ 108 ∷ 108 ∷ []

unfoldable pub lookup_id : FieldHotcache → Option ℕ → Option TermOffsets
lookup_id fhc none = none
lookup_id fhc (some id) = get_elem? fhc.term_table id

unfoldable pub lookup_fst : FieldHotcache → Option Fst → Bytes → Option TermOffsets
unfolding lookup_id
lookup_fst fhc none term = none
lookup_fst fhc (some fst) term = lookup_id fhc (fst.get term)

unfoldable pub lookup_term : FieldHotcache → Bytes → Option TermOffsets
unfolding lookup_fst
lookup_term fhc term = lookup_fst fhc fhc.fst term

-- The inner loop of `phraseMatch`, over positions in ascending order.
unfoldable pub found_at : ℕ → List ℕ → Bool
found_at needed [] = false
found_at needed (p ∷ ps) =
    let rest = found_at needed ps in
    if p == needed then true else if ltb needed p then false else rest

-- `posMap`, where a later entry replaces an earlier one
unfoldable pub position_map : List PositionsEntry → List (ℕ × List ℕ) → List (ℕ × List ℕ)
position_map [] m = m
position_map (pe ∷ pes) m = position_map pes (insert pe.doc_id pe.positions m)

-- a missing key of the map is nil
unfoldable pub or_nil : Option (List ℕ) → List ℕ
or_nil none = []
or_nil (some ps) = ps

module _ (rb : Roaring) where
  pub record TermData : Type 0 where
    pub pl : rb.Bitmap
    pub pos : List (ℕ × List ℕ)

  unfoldable pub positions_of : TermData → ℕ → List ℕ
  unfolding or_nil
  positions_of td doc_id = or_nil (lookup doc_id td.pos)

  -- the loop over the later terms, from the `i`th on
  unfoldable pub match_rest : ℕ → ℕ → ℕ → List TermData → Bool
  unfolding positions_of found_at
  match_rest doc_id start i [] = true
  match_rest doc_id start i (td ∷ tds) =
      let rest = match_rest doc_id start (suc i) tds in
      if found_at ((start + i) % 2 ^ 32) (positions_of td doc_id) then rest else false

  unfoldable pub match_any : ℕ → List ℕ → List TermData → Bool
  unfolding match_rest
  match_any doc_id [] tds = false
  match_any doc_id (start ∷ starts) tds =
      let rest = match_any doc_id starts tds in if match_rest doc_id start 1 tds then true else rest

  unfoldable pub phrase_match : ℕ → List TermData → Bool
  unfolding match_any
  phrase_match doc_id [] = false
  phrase_match doc_id (td ∷ tds) = match_any doc_id (positions_of td doc_id) tds

  -- `combined` of all the terms
  unfoldable pub and_terms : rb.Bitmap → List TermData → rb.Bitmap
  and_terms combined [] = combined
  and_terms combined (td ∷ tds) = and_terms (rb.and combined td.pl) tds

  -- the loop that fills `result`
  unfoldable pub add_matches : List TermData → List ℕ → rb.Bitmap → rb.Bitmap
  unfolding phrase_match
  add_matches tds [] result = result
  add_matches tds (d ∷ ds) result =
      let more = add_matches tds ds (rb.add d result) in
      let same = add_matches tds ds result in if phrase_match d tds then more else same

  unfoldable pub match_phrases : List TermData → rb.Bitmap
  unfolding and_terms add_matches
  match_phrases [] = rb.new
  match_phrases (td ∷ tds) = add_matches (td ∷ tds) (rb.elements (and_terms td.pl tds)) rb.new

  -- a union that is still nil
  unfoldable pub or_into : Option rb.Bitmap → rb.Bitmap → rb.Bitmap
  or_into none bm = bm
  or_into (some union) bm = rb.or union bm

  unfoldable pub or_new : Option rb.Bitmap → rb.Bitmap
  or_new none = rb.new
  or_new (some union) = union

  module _ {E : Type 0} (r : Reader rb E) where
    unfoldable pub offsets_bitmap : Option TermOffsets → Outcome E rb.Bitmap
    offsets_bitmap none = ok rb.new
    offsets_bitmap (some to) = r.get_postings to

    unfoldable pub term_bitmap_field : FieldHotcache → Bytes → Outcome E rb.Bitmap
    unfolding offsets_bitmap lookup_term
    term_bitmap_field fhc term = offsets_bitmap (lookup_term fhc term)

    -- the loop over all fields
    unfoldable pub union_fields :
        Bytes → List FieldHotcache → Option rb.Bitmap → Outcome E (Option rb.Bitmap)
    unfolding term_bitmap_field or_into
    union_fields term [] union = ok union
    union_fields term (fhc ∷ fhcs) union = do
      bm ← term_bitmap_field fhc term
      union_fields term fhcs (some (or_into union bm))

    unfoldable pub one_field : Option FieldHotcache → Bytes → Outcome E rb.Bitmap
    unfolding term_bitmap_field
    one_field none term = ok rb.new
    one_field (some fhc) term = term_bitmap_field fhc term

    unfoldable pub term_bitmap : Hotcache → Bytes → Bytes → Outcome E rb.Bitmap
    unfolding union_fields one_field or_new
    term_bitmap hc field term =
        if field =? all_fields
        then (union_fields term hc.fields none >>= λ union. ok (or_new union))
        else one_field (lookup field hc.field_index) term

    -- the loop over the keys of the fst, which stops at the first one without the prefix
    unfoldable pub union_keys :
        FieldHotcache → Bytes → List (Bytes × ℕ) → rb.Bitmap → Outcome E rb.Bitmap
    union_keys fhc prefix [] union = ok union
    union_keys fhc prefix ((key, id) ∷ keys) union =
        let skip = union_keys fhc prefix keys union in
        let with_bitmap = λ (bm : rb.Bitmap). union_keys fhc prefix keys (rb.or union bm) in
        if has_prefix prefix key
        then elim (get_elem? fhc.term_table id) [
          | none ↦ skip
          | some to ↦ r.get_postings to >>= with_bitmap
        ]
        else ok union

    unfoldable pub prefix_fst : FieldHotcache → Option Fst → Bytes → Outcome E rb.Bitmap
    unfolding union_keys
    prefix_fst fhc none prefix = ok rb.new
    prefix_fst fhc (some fst) prefix = union_keys fhc prefix (fst.iterator prefix) rb.new

    unfoldable pub prefix_field : Option FieldHotcache → Bytes → Outcome E rb.Bitmap
    unfolding prefix_fst
    prefix_field none prefix = ok rb.new
    prefix_field (some fhc) prefix = prefix_fst fhc fhc.fst prefix

    unfoldable pub prefix_bitmap : Hotcache → Bytes → Bytes → Outcome E rb.Bitmap
    unfolding prefix_field
    prefix_bitmap hc field prefix = prefix_field (lookup field hc.field_index) prefix

    unfoldable pub term_data : TermOffsets → Outcome E TermData
    unfolding position_map
    term_data to = do
      pl ← r.get_postings to
      pos_entries ← r.get_positions to
      ok (record { pl = pl; pos = position_map pos_entries [] })

    -- `tds`, or nothing if a term is not there
    unfoldable pub collect_terms : FieldHotcache → List Bytes → Outcome E (Option (List TermData))
    unfolding term_data
    collect_terms fhc [] = ok (some [])
    collect_terms fhc (term ∷ terms) = elim (lookup_term fhc term) [
      | none ↦ ok none
      | some to ↦ do
        td ← term_data to
        rest ← collect_terms fhc terms
        elim rest [ none ↦ ok none | some tds ↦ ok (some (td ∷ tds)) ]
    ]

    unfoldable pub phrase_terms : Option (List TermData) → rb.Bitmap
    unfolding match_phrases
    phrase_terms none = rb.new
    phrase_terms (some tds) = match_phrases tds

    unfoldable pub phrase_field : Option FieldHotcache → List Bytes → Outcome E rb.Bitmap
    unfolding collect_terms phrase_terms
    phrase_field none terms = ok rb.new
    phrase_field (some fhc) terms = collect_terms fhc terms >>= λ tds. ok (phrase_terms tds)

    unfoldable pub phrase_bitmap : Hotcache → Bytes → List Bytes → Outcome E rb.Bitmap
    unfolding phrase_field
    phrase_bitmap hc field [] = ok rb.new
    phrase_bitmap hc field (term ∷ terms) =
        phrase_field (lookup field hc.field_index) (term ∷ terms)
