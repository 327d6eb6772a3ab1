-- ===== src/Segment/Inputs.antt =====
-- The sizes of the data that `Build` of pkg/segment/writer.go hands to `EncodeHotcache`.
use Prim.{tt}
use s3search.Base.{
  ℕ, zero, suc, ◌+◌, ◌-◌, ◌*◌, ◌^◌, ◌<◌, ◌≤◌, ◌≡◌, refl, sym, ap, ◌∙◌, arith, Bytes, List, [], ◌∷◌,
  length, length-append, map, All, get_elem?, IsU32, length-to_le, ◌==◌, Bool-cases, inl, inr,
  Option, some, ok, >>=-eq-ok,
}
use s3search.Query.Bitmap.{Roaring, Fst}
use s3search.Segment.Footer.{length-word_append}
use s3search.Segment.Hotcache.{
  FieldHotcache, HotcacheFieldInput, write_blob, encode_field, encode_fields, encode_hotcache,
}
use s3search.Segment.HotcacheRoundTrip.{
  IsTermOffsets, IsInput, length-encode_offsets, length-encode_u32s, loaded, all_loaded,
}
use s3search.Segment.Accumulator.{FieldAccumulator}
use s3search.Segment.Build.{
  Codecs, TermRecord, Sections, group_of, offsets_of, hotcache_input, hotcache_inputs, avg_doclen,
}
use s3search.Segment.Placed.{IsPlaced, ArePlaced}
use s3search.Segment.Ranges.{CodecLaws}
use s3search.Segment.FieldInput.{HasInput, hotcache_input-HasInput}

length-write_blob : (b : Bytes) → length (write_blob b) ≡ 4 + length b
unfolding write_blob
length-write_blob b = length-word_append 4 (length b) b

-- the lengths that are written for a field
pub record FitsIn (bound : ℕ) (f : HotcacheFieldInput) : Type 0 where
  pub name_in : length f.name ≤ bound
  pub fst_in : length f.fst_bytes ≤ bound
  pub table_in : 32 * length f.term_offsets ≤ bound
  pub doclens_in : 4 * length f.doclens ≤ bound

length-encode_field :
    (f : HotcacheFieldInput)
    → length (encode_field f)
      ≡ 20
        + (length f.name
            + (length f.fst_bytes + (32 * length f.term_offsets + 4 * length f.doclens)))
unfolding encode_field
length-encode_field f =
    simp (length-append, length-write_blob, length-encode_offsets, length-encode_u32s, length-to_le)
      (omega arith)

pub encode_fields-FitsIn :
    (bound : ℕ) (fs : List HotcacheFieldInput)
    → length (encode_fields fs) ≤ bound
    → All (FitsIn bound) fs
unfolding encode_fields
encode_fields-FitsIn bound [] h = tt
encode_fields-FitsIn bound (f ∷ fs) h = (
  record {
    name_in = omega (arith, room, length-encode_field f);
    fst_in = omega (arith, room, length-encode_field f);
    table_in = omega (arith, room, length-encode_field f);
    doclens_in = omega (arith, room, length-encode_field f);
  },
  encode_fields-FitsIn bound fs (omega (arith, room)),
)
  where
    room : length (encode_field f) + length (encode_fields fs) ≤ bound
    room = omega (arith, h, length-append (encode_field f) (encode_fields fs))

pub length-encode_fields-ge : (fs : List HotcacheFieldInput) → length fs ≤ length (encode_fields fs)
unfolding encode_fields
length-encode_fields-ge [] = omega arith
length-encode_fields-ge (f ∷ fs) = omega (
  arith,
  length-append (encode_field f) (encode_fields fs),
  length-encode_field f,
  length-encode_fields-ge fs,
)

-- A hotcache is longer than all its parts.
pub length-encode_hotcache :
    (fs : List HotcacheFieldInput) (idx : Bytes) (n blocks : ℕ)
    → length (encode_hotcache fs idx n blocks) ≡ 24 + (length idx + length (encode_fields fs))
unfolding encode_hotcache
length-encode_hotcache fs idx n blocks =
    simp (length-append, length-write_blob, length-to_le) (omega arith)

module _ (rb : Roaring) (codecs : Codecs rb) where
  -- each field with its input
  abbrev pub Paired :
      ℕ → ℕ → List TermRecord → List (FieldAccumulator rb) → List HotcacheFieldInput → Type 0
  Paired post_base pos_base trs [] [] = Unit
  Paired post_base pos_base trs (fa ∷ fas) (input ∷ inputs) =
      HasInput rb codecs post_base pos_base trs fa input × Paired post_base pos_base trs fas inputs
  Paired post_base pos_base trs [] (input ∷ inputs) = ⊥
  Paired post_base pos_base trs (fa ∷ fas) [] = ⊥

  pub hotcache_inputs-Paired :
      (post_base pos_base : ℕ) (trs : List TermRecord) (fas : List (FieldAccumulator rb))
      (inputs : List HotcacheFieldInput)
      → hotcache_inputs rb codecs post_base pos_base trs fas ≡ ok inputs
      → Paired post_base pos_base trs fas inputs
  unfolding hotcache_inputs
  hotcache_inputs-Paired post_base pos_base trs [] [] e = tt
  hotcache_inputs-Paired post_base pos_base trs [] (x ∷ inputs) e = cc
  hotcache_inputs-Paired post_base pos_base trs (fa ∷ fas) inputs e =
      let (input, one, e1) = >>=-eq-ok (hotcache_input rb codecs post_base pos_base trs fa) _ e in
      let (more, rest, e2) =
        >>=-eq-ok (hotcache_inputs rb codecs post_base pos_base trs fas) _ e1 in
      let same : inputs ≡ input ∷ more = cc e2 in
      rw same (
        hotcache_input-HasInput rb codecs post_base pos_base trs fa input one,
        hotcache_inputs-Paired post_base pos_base trs fas more rest,
      )

  All-IsTermOffsets :
      (fa : FieldAccumulator rb) (sec : Sections) (pos_base : ℕ) (trs : List TermRecord)
      → length sec.post_buf < 2 ^ 64
      → length sec.pos_buf < 2 ^ 64
      → All (IsPlaced rb codecs fa sec) trs
      → All IsTermOffsets (map (offsets_of 8 pos_base) trs)
  unfolding offsets_of
  All-IsTermOffsets fa sec pos_base [] small small' h = tt
  All-IsTermOffsets fa sec pos_base (tr ∷ trs) small small' (k, h) = (
    record {
      post_off = omega arith;
      post_len = omega (arith, k.post_within);
      pos_off = omega arith;
      pos_len = omega (arith, k.pos_within);
    },
    All-IsTermOffsets fa sec pos_base trs small small' h,
  )

  avg_doclen-IsU32 : (dl : List ℕ) → CodecLaws rb codecs → IsU32 (avg_doclen rb codecs dl)
  unfolding avg_doclen
  avg_doclen-IsU32 dl laws = elim (Bool-cases (length dl == 0)) [
    | inl empty ↦ rw empty (omega arith)
    | inr some_docs ↦ rw some_docs (laws.quotient_small _ (length dl))
  ]

  -- what a field is to hold
  pub record IsReady (sec : Sections) (fa : FieldAccumulator rb) : Type 0 where
    pub placed : ArePlaced rb codecs fa sec
    pub doclens : All IsU32 fa.doclens

  HasInput-IsInput :
      (sec : Sections) (pos_base : ℕ) (fa : FieldAccumulator rb) (input : HotcacheFieldInput)
      → CodecLaws rb codecs
      → length sec.post_buf < 2 ^ 64
      → length sec.pos_buf < 2 ^ 64
      → HasInput rb codecs 8 pos_base sec.term_records fa input
      → IsReady sec fa
      → FitsIn (2 ^ 32 - 1) input
      → IsInput codecs.load_fst input
  HasInput-IsInput sec pos_base fa input laws small small' h ready fits =
      let (f, loads, gets) = laws.load-build _ _ h.built in
      record {
        name_fits = omega (arith, fits.name_in);
        fst_fits = omega (arith, fits.fst_in);
        table_fits = omega (arith, fits.table_in);
        doclens_fit = omega (arith, fits.doclens_in);
        offsets = rw (h.table_is) (
            All-IsTermOffsets fa sec pos_base (group_of fa.name sec.term_records) small small'
              ready.placed.placed);
        doclens = rw (h.doclens_are) ready.doclens;
        avg = rw (h.avg_is) (avg_doclen-IsU32 fa.doclens laws);
        fst = f;
        loads = loads;
      }

  -- All inputs of a hotcache shorter than 2 ^ 32 bytes.
  pub Paired-IsInput :
      (sec : Sections) (pos_base : ℕ) (fas : List (FieldAccumulator rb))
      (inputs : List HotcacheFieldInput)
      → CodecLaws rb codecs
      → length sec.post_buf < 2 ^ 64
      → length sec.pos_buf < 2 ^ 64
      → Paired 8 pos_base sec.term_records fas inputs
      → All (IsReady sec) fas
      → All (FitsIn (2 ^ 32 - 1)) inputs
      → All (IsInput codecs.load_fst) inputs
  Paired-IsInput sec pos_base [] [] laws small small' h ready fits = tt
  Paired-IsInput sec pos_base [] (input ∷ inputs) laws small small' h ready fits = absurd h
  Paired-IsInput sec pos_base (fa ∷ fas) [] laws small small' h ready fits = absurd h
  Paired-IsInput sec pos_base (fa ∷ fas) (input ∷ inputs) laws small small' (p, h) (r, ready)
        (f, fits) =
      (
        HasInput-IsInput sec pos_base fa input laws small small' p r f,
        Paired-IsInput sec pos_base fas inputs laws small small' h ready fits,
      )

  pub Paired-get :
      (post_base pos_base : ℕ) (trs : List TermRecord) (fas : List (FieldAccumulator rb))
      (inputs : List HotcacheFieldInput) (i : ℕ) (fa : FieldAccumulator rb)
      → Paired post_base pos_base trs fas inputs
      → get_elem? fas i ≡ some fa
      → (input : HotcacheFieldInput) × (get_elem? inputs i ≡ some input)
        × HasInput rb codecs post_base pos_base trs fa input
  Paired-get post_base pos_base trs [] inputs i fa h e = cc
  Paired-get post_base pos_base trs (fa' ∷ fas) [] i fa h e = absurd h
  Paired-get post_base pos_base trs (fa' ∷ fas) (input ∷ inputs) zero fa (p, h) e =
      let same : fa' ≡ fa = cc e in (input, refl, rw same at p)
  Paired-get post_base pos_base trs (fa' ∷ fas) (input ∷ inputs) (suc i) fa (p, h) e =
      Paired-get post_base pos_base trs fas inputs i fa h e

-- a field of a loaded hotcache, by the input that it is of
pub record IsLoaded (load_fst : Bytes → Option Fst) (f : HotcacheFieldInput)
    (fhcs : List FieldHotcache) (i : ℕ) : Type 0 where
  pub fhc : FieldHotcache
  pub map_of_terms : Fst
  pub at : get_elem? fhcs i ≡ some fhc
  pub loads : load_fst f.fst_bytes ≡ some map_of_terms
  pub name_is : fhc.name ≡ f.name
  pub fst_is : fhc.fst ≡ some map_of_terms
  pub table_is : fhc.term_table ≡ f.term_offsets

pub all_loaded-IsLoaded :
    (load_fst : Bytes → Option Fst) (fs : List HotcacheFieldInput) (h : All (IsInput load_fst) fs)
    (i : ℕ) (f : HotcacheFieldInput)
    → get_elem? fs i ≡ some f
    → IsLoaded load_fst f (all_loaded load_fst fs h) i
all_loaded-IsLoaded load_fst [] h i f e = cc
all_loaded-IsLoaded load_fst (f' ∷ fs) (hf, h) zero f e =
    let same : f ≡ f' = cc e in
    record {
      fhc = loaded load_fst f' hf;
      map_of_terms = hf.fst;
      at = refl;
      loads = ap (λ (x : HotcacheFieldInput). load_fst x.fst_bytes) same ∙ hf.loads;
      name_is = ap (λ (x : HotcacheFieldInput). x.name) (sym same);
      fst_is = refl;
      table_is = ap (λ (x : HotcacheFieldInput). x.term_offsets) (sym same);
    }
all_loaded-IsLoaded load_fst (f' ∷ fs) (hf, h) (suc i) f e =
    let l = all_loaded-IsLoaded load_fst fs h i f e in
    record {
      fhc = l.fhc;
      map_of_terms = l.map_of_terms;
      at = l.at;
      loads = l.loads;
      name_is = l.name_is;
      fst_is = l.fst_is;
      table_is = l.table_is;
    }
