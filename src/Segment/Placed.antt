-- ===== src/Segment/Placed.antt =====
-- Where `Build` of pkg/segment/writer.go puts the postings of the terms of a field.
use Prim.{tt}
use s3search.Base.{
  ℕ, ◌+◌, ◌≤◌, ◌≡◌, refl, sym, ap, ◌∙◌, arith, Bytes, List, [], ◌∷◌, ◌++◌, length, length-append,
  take, drop, drop-append, take-append_le, drop-append_le, take-all, length-drop, All, All-append,
  Bool-cases, inl, inr, lookup, bytes_eq, bytes_beq, bytes_beq_iff, sort_strings,
}
use s3search.Base.{some, ok, >>=-eq-ok, Option-cases}
use mathlib.Core.Path.{subst}
use s3search.Query.Bitmap.{Roaring}
use s3search.Query.Leaves.{or_new}
use s3search.Segment.Accumulator.{FieldAccumulator}
use s3search.Segment.Build.{
  Codecs, TermRecord, Sections, keys_of, group_of, position_bytes, new_record, record_term,
  add_term, add_terms, build_sections,
}

pub group_of-append :
    (name : Bytes) (xs ys : List TermRecord)
    → group_of name (xs ++ ys) ≡ group_of name xs ++ group_of name ys
unfolding group_of
group_of-append name [] ys = refl
group_of-append name (x ∷ xs) ys = ground (arith, group_of-append name xs ys)

pub take-drop-append :
    (n m : ℕ) (xs ys : Bytes) → m + n ≤ length xs → take n (drop m (xs ++ ys)) ≡ take n (drop m xs)
take-drop-append n m xs ys h =
    ap (take n) (drop-append_le m xs ys (omega arith))
    ∙ take-append_le n (drop m xs) ys (omega (arith, length-drop m xs))

module _ (rb : Roaring) (codecs : Codecs rb) where
  -- A record of the field `fa` whose postings stand where it says.
  pub record IsPlaced (fa : FieldAccumulator rb) (sec : Sections) (tr : TermRecord) : Type 0 where
    pub post_within : tr.post_off + tr.post_len ≤ length sec.post_buf
    pub pos_within : tr.pos_off + tr.pos_len ≤ length sec.pos_buf
    pub marshalled :
        codecs.marshal_binary (or_new rb (lookup tr.term fa.posting_lists))
        ≡ some (take tr.post_len (drop tr.post_off sec.post_buf))

  -- all records of the field
  pub record ArePlaced (fa : FieldAccumulator rb) (sec : Sections) : Type 0 where
    pub placed : All (IsPlaced fa sec) (group_of fa.name sec.term_records)

  -- no other field of its name
  abbrev pub IsOnly : FieldAccumulator rb → FieldAccumulator rb → Type 0
  IsOnly fa fa' = fa'.name ≡ fa.name → fa' ≡ fa

  All-IsPlaced_more :
      (fa : FieldAccumulator rb) (sec sec' : Sections) (pl pos : Bytes) (trs : List TermRecord)
      → sec'.post_buf ≡ sec.post_buf ++ pl
      → sec'.pos_buf ≡ sec.pos_buf ++ pos
      → All (IsPlaced fa sec) trs
      → All (IsPlaced fa sec') trs
  All-IsPlaced_more fa sec sec' pl pos [] e e' h = tt
  All-IsPlaced_more fa sec sec' pl pos (tr ∷ trs) e e' (k, h) = (
    record {
      post_within = omega (arith, ap length e, length-append sec.post_buf pl, k.post_within);
      pos_within = omega (arith, ap length e', length-append sec.pos_buf pos, k.pos_within);
      marshalled =
          k.marshalled
          ∙ ap some (
              sym (take-drop-append tr.post_len tr.post_off sec.post_buf pl k.post_within)
              ∙ ap (λ b. take tr.post_len (drop tr.post_off b)) (sym e));
    },
    All-IsPlaced_more fa sec sec' pl pos trs e e' h,
  )

  pub record_term-records :
      (fa : FieldAccumulator rb) (term pl : Bytes) (sec : Sections)
      → (record_term rb codecs fa term pl sec).term_records
        ≡ sec.term_records ++ new_record rb codecs fa term pl sec ∷ []
  unfolding record_term new_record position_bytes
  record_term-records fa term pl sec = refl

  new_record-IsPlaced :
      (fa fa' : FieldAccumulator rb) (term pl : Bytes) (sec : Sections)
      → fa' ≡ fa
      → codecs.marshal_binary (or_new rb (lookup term fa'.posting_lists)) ≡ some pl
      → IsPlaced fa (record_term rb codecs fa' term pl sec) (new_record rb codecs fa' term pl sec)
  unfolding record_term new_record position_bytes
  new_record-IsPlaced fa fa' term pl sec same e = record {
    post_within = omega (arith, length-append sec.post_buf pl);
    pos_within = omega (arith, length-append sec.pos_buf (position_bytes rb codecs fa' term));
    marshalled =
        ap
          (λ (a : FieldAccumulator rb).
            codecs.marshal_binary (or_new rb (lookup term a.posting_lists)))
          (sym same)
        ∙ e
        ∙ ap some (
            sym (take-all (length pl) pl (omega arith))
            ∙ ap (take (length pl)) (sym (drop-append (length sec.post_buf) sec.post_buf pl refl)));
  }

  record_term-ArePlaced :
      (fa fa' : FieldAccumulator rb) (term pl : Bytes) (sec : Sections)
      → IsOnly fa fa'
      → ArePlaced fa sec
      → codecs.marshal_binary (or_new rb (lookup term fa'.posting_lists)) ≡ some pl
      → ArePlaced fa (record_term rb codecs fa' term pl sec)
  record_term-ArePlaced fa fa' term pl sec only h e = record {
    placed = subst (All (IsPlaced fa (record_term rb codecs fa' term pl sec))) (sym records) (
        All-append (IsPlaced fa (record_term rb codecs fa' term pl sec))
          (group_of fa.name sec.term_records)
          (group_of fa.name (new_record rb codecs fa' term pl sec ∷ []))
          (All-IsPlaced_more fa sec (record_term rb codecs fa' term pl sec) pl
            (position_bytes rb codecs fa' term) (group_of fa.name sec.term_records)
            (unfold record_term in refl) (unfold record_term position_bytes in refl) h.placed)
          last);
  }
    where
      records :
          group_of fa.name (record_term rb codecs fa' term pl sec).term_records
          ≡ group_of fa.name sec.term_records
            ++ group_of fa.name (new_record rb codecs fa' term pl sec ∷ [])
      records =
          ap (group_of fa.name) (record_term-records fa' term pl sec)
          ∙ group_of-append fa.name sec.term_records (new_record rb codecs fa' term pl sec ∷ [])

      last :
          All
            (IsPlaced fa (record_term rb codecs fa' term pl sec))
            (group_of fa.name (new_record rb codecs fa' term pl sec ∷ []))
      last = elim (Bool-cases (bytes_beq fa'.name fa.name)) [
        | inl same ↦
            let it_is : fa' ≡ fa = only ((bytes_beq_iff fa'.name fa.name).0 same) in
            unfold group_of new_record in
            rw same (new_record-IsPlaced fa fa' term pl sec it_is e, tt)
        | inr other ↦ unfold group_of new_record in rw other tt
      ]

  -- What a term that was added gave.
  pub add_term-eq :
      (fa : FieldAccumulator rb) (term : Bytes) (sec sec' : Sections)
      → add_term rb codecs fa term sec ≡ ok sec'
      → (pl : Bytes) × (codecs.marshal_binary (or_new rb (lookup term fa.posting_lists)) ≡ some pl)
        × (sec' ≡ record_term rb codecs fa term pl sec)
  unfolding add_term
  add_term-eq fa term sec sec' e =
      elim (Option-cases (codecs.marshal_binary (or_new rb (lookup term fa.posting_lists)))) [
        | inl failed ↦ absurd (cc (rw (failed, add_term) at e))
        | inr (pl, marshalled) ↦ (pl, marshalled, cc (rw (marshalled, add_term) at e))
      ]

  add_term-ArePlaced :
      (fa fa' : FieldAccumulator rb) (term : Bytes) (sec sec' : Sections)
      → IsOnly fa fa'
      → ArePlaced fa sec
      → add_term rb codecs fa' term sec ≡ ok sec'
      → ArePlaced fa sec'
  unfolding add_term
  add_term-ArePlaced fa fa' term sec sec' only h e =
      let (pl, marshalled, same) = add_term-eq fa' term sec sec' e in
      rw same (record_term-ArePlaced fa fa' term pl sec only h marshalled)

  add_terms-ArePlaced :
      (fa fa' : FieldAccumulator rb) (terms : List Bytes) (sec sec' : Sections)
      → IsOnly fa fa'
      → ArePlaced fa sec
      → add_terms rb codecs fa' terms sec ≡ ok sec'
      → ArePlaced fa sec'
  unfolding add_terms
  add_terms-ArePlaced fa fa' [] sec sec' only h e = rw (← e') h
    where
      e' : sec ≡ sec'
      e' = cc e
  add_terms-ArePlaced fa fa' (term ∷ terms) sec sec' only h e =
      let (next, first, rest) = >>=-eq-ok (add_term rb codecs fa' term sec) _ e in
      add_terms-ArePlaced fa fa' terms next sec' only
        (add_term-ArePlaced fa fa' term sec next only h first) rest

  -- The records of a field, and what they say, are right when all fields are written.
  pub build_sections-ArePlaced :
      (fa : FieldAccumulator rb) (fas : List (FieldAccumulator rb)) (sec sec' : Sections)
      → All (IsOnly fa) fas
      → ArePlaced fa sec
      → build_sections rb codecs fas sec ≡ ok sec'
      → ArePlaced fa sec'
  unfolding build_sections
  build_sections-ArePlaced fa [] sec sec' only h e = rw (← e') h
    where
      e' : sec ≡ sec'
      e' = cc e
  build_sections-ArePlaced fa (fa' ∷ fas) sec sec' (one, only) h e =
      let (next, first, rest) =
        >>=-eq-ok (add_terms rb codecs fa' (sort_strings (keys_of fa'.posting_lists)) sec) _ e in
      build_sections-ArePlaced fa fas next sec' only
        (add_terms-ArePlaced fa fa' _ sec next one h first) rest
