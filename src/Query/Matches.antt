-- ===== src/Query/Matches.antt =====
-- Which documents of a segment a query of pkg/query is to match, document by document and without bitmaps:
-- the independent description of what exec.go computes.
use s3search.Base.{
  ℕ, ◌≡◌, All, Bool, true, false, ◌&&◌, ◌||◌, not, Bytes, List, [], ◌∷◌, get_elem?, ltb, ◌=?◌,
  bytes_eq,
}
use s3search.Base.{lookup, has_prefix, if◌then◌else◌, Option, none, some, ok}
use s3search.Postings.Positions.{PositionsEntry}
use s3search.Segment.Hotcache.{FieldHotcache, Hotcache, TermOffsets}
use s3search.Query.Bitmap.{Roaring, Fst}
use s3search.Query.Node.{Node, Nodes, match, term, prefix, phrase, range, bool, unknown, nil, cons}
use s3search.Query.Leaves.{Reader, TermData, all_fields, lookup_term, position_map, phrase_match}

-- The postings and the positions that a segment holds.
pub record Segment (rb : Roaring) : Type 0 where
  pub postings : TermOffsets → rb.Bitmap
  pub positions : TermOffsets → List PositionsEntry

module _ (rb : Roaring) {E : Type 0} (r : Reader rb E) (seg : Segment rb) where
  -- the reader gives what the segment holds for these offsets
  pub record IsServed (to : TermOffsets) : Type 0 where
    pub postings_read : r.get_postings to ≡ ok (seg.postings to)
    pub positions_read : r.get_positions to ≡ ok (seg.positions to)

  -- all terms in the table of a field
  abbrev pub FieldServed : FieldHotcache → Type 0
  FieldServed fhc =
      (id : ℕ) (to : TermOffsets) → get_elem? fhc.term_table id ≡ some to → IsServed to

  -- The reader gives what the segment holds for every term in the tables of the hotcache.
  pub record Serves (hc : Hotcache) : Type 0 where
    pub of_fields : All FieldServed hc.fields
    pub of_index :
        (field : Bytes) (fhc : FieldHotcache)
        → lookup field hc.field_index ≡ some fhc
        → FieldServed fhc

abbrev pub is_nil : Nodes → Bool
is_nil nil = true
is_nil (cons q qs) = false

-- every node in the tree is of a type that the evaluation knows
unfoldable mutual
  pub IsKnown : Node → Type 0
  IsKnown (match field value) = Unit
  IsKnown (term field value) = Unit
  IsKnown (prefix field value) = Unit
  IsKnown (phrase field terms) = Unit
  IsKnown range = Unit
  IsKnown (bool must should must_not filter) =
      AreKnown must × AreKnown should × AreKnown must_not × AreKnown filter
  IsKnown (unknown name) = ⊥

  pub AreKnown : Nodes → Type 0
  AreKnown nil = Unit
  AreKnown (cons q qs) = IsKnown q × AreKnown qs

module _ (rb : Roaring) (seg : Segment rb) (hc : Hotcache) (tokenize : Bytes → List Bytes) where
  -- the term at these offsets occurs in the document
  abbrev pub occurs : ℕ → Option TermOffsets → Bool
  occurs d none = false
  occurs d (some to) = rb.has d (seg.postings to)

  abbrev pub field_matches : ℕ → Option FieldHotcache → Bytes → Bool
  field_matches d none t = false
  field_matches d (some fhc) t = occurs d (lookup_term fhc t)

  abbrev pub any_field : ℕ → List FieldHotcache → Bytes → Bool
  any_field d [] t = false
  any_field d (fhc ∷ fhcs) t = occurs d (lookup_term fhc t) || any_field d fhcs t

  unfoldable pub term_matches : ℕ → Bytes → Bytes → Bool
  term_matches d field t =
      if field =? all_fields
      then any_field d hc.fields t
      else field_matches d (lookup field hc.field_index) t

  abbrev pub all_terms : ℕ → Bytes → List Bytes → Bool
  all_terms d field [] = true
  all_terms d field (t ∷ ts) = term_matches d field t && all_terms d field ts

  -- a text without tokens matches nothing
  abbrev pub text_matches : ℕ → Bytes → List Bytes → Bool
  text_matches d field [] = false
  text_matches d field (t ∷ ts) = all_terms d field (t ∷ ts)

  abbrev pub any_key : ℕ → FieldHotcache → Bytes → List (Bytes × ℕ) → Bool
  any_key d fhc start [] = false
  any_key d fhc start ((key, id) ∷ keys) =
      has_prefix start key && (occurs d (get_elem? fhc.term_table id) || any_key d fhc start keys)

  abbrev pub fst_matches : ℕ → FieldHotcache → Option Fst → Bytes → Bool
  fst_matches d fhc none start = false
  fst_matches d fhc (some fst) start = any_key d fhc start (fst.iterator start)

  abbrev pub prefix_in : ℕ → Option FieldHotcache → Bytes → Bool
  prefix_in d none start = false
  prefix_in d (some fhc) start = fst_matches d fhc fhc.fst start

  -- the data of the terms of a phrase, if all are in the field
  abbrev pub data_of : TermOffsets → TermData rb
  data_of to = record { pl = seg.postings to; pos = position_map (seg.positions to) [] }

  abbrev pub with_rest : TermOffsets → Option (List (TermData rb)) → Option (List (TermData rb))
  with_rest to none = none
  with_rest to (some tds) = some (data_of to ∷ tds)

  abbrev pub found_first :
      Option TermOffsets → Option (List (TermData rb)) → Option (List (TermData rb))
  found_first none rest = none
  found_first (some to) rest = with_rest to rest

  abbrev pub terms_data : FieldHotcache → List Bytes → Option (List (TermData rb))
  terms_data fhc [] = some []
  terms_data fhc (t ∷ ts) = found_first (lookup_term fhc t) (terms_data fhc ts)

  abbrev pub all_occur : ℕ → List (TermData rb) → Bool
  all_occur d [] = true
  all_occur d (td ∷ tds) = rb.has d td.pl && all_occur d tds

  -- all terms occur, and somewhere one behind the other
  abbrev pub adjacent : ℕ → Option (List (TermData rb)) → Bool
  adjacent d none = false
  adjacent d (some tds) = all_occur d tds && phrase_match rb d tds

  abbrev pub phrase_in : ℕ → Option FieldHotcache → List Bytes → Bool
  phrase_in d none terms = false
  phrase_in d (some fhc) terms = adjacent d (terms_data fhc terms)

  abbrev pub phrase_matches : ℕ → Bytes → List Bytes → Bool
  phrase_matches d field [] = false
  phrase_matches d field (t ∷ ts) = phrase_in d (lookup field hc.field_index) (t ∷ ts)

  -- Of a boolean query all of Must and Filter have to match and none of MustNot. One of Should has to match
  -- only where there is neither Must nor Filter. Without any of the three every document matches.
  unfoldable mutual
    unfolding term_matches

    pub matches : ℕ → Node → Bool
    matches d (match field value) = text_matches d field (tokenize value)
    matches d (term field value) = term_matches d field value
    matches d (prefix field value) = prefix_in d (lookup field hc.field_index) value
    matches d (phrase field terms) = phrase_matches d field terms
    matches d range = false
    matches d (bool must should must_not filter) =
        (all_match d must && all_match d filter)
        && (not (is_nil must && is_nil filter)
            || (if is_nil should then ltb d hc.doc_count else any_match d should))
        && not (any_match d must_not)
    matches d (unknown name) = false

    pub all_match : ℕ → Nodes → Bool
    all_match d nil = true
    all_match d (cons q qs) = matches d q && all_match d qs

    pub any_match : ℕ → Nodes → Bool
    any_match d nil = false
    any_match d (cons q qs) = matches d q || any_match d qs
