-- ===== src/Query/Answers.antt =====
-- `evalBitmap` and `SearchDocIDs` of pkg/query/exec.go answer a query with the documents that match it.

use s3search.Base.{
  ℕ, ◌≡◌, refl, sym, ◌∙◌, arith, Bool, true, false, ◌&&◌, ◌||◌, not, Bytes, List, [], ◌∷◌, ltb,
}
use s3search.Base.{if◌then◌else◌, Option, none, some, ok}
use s3search.Segment.Hotcache.{Hotcache}
use s3search.Query.Bitmap.{Roaring}
use s3search.Query.Node.{Node, Nodes, match, term, prefix, phrase, range, bool, unknown, nil, cons}
use s3search.Query.Leaves.{Reader, or_into, or_new}
use s3search.Query.Exec.{
  from_read, and_into, and_tokens, or_all, should_into, eval_bitmap, and_nodes, or_nodes,
  without_nodes,
}
use s3search.Query.Matches.{
  Segment, Serves, is_nil, IsKnown, AreKnown, matches, all_match, any_match, all_terms,
  text_matches,
}
use s3search.Query.LeafAnswers.{term_bitmap-Gives, prefix_bitmap-Gives, phrase_bitmap-Gives}

is_empty {ℓ} : {A : Type ℓ} → List A → Bool
is_empty [] = true
is_empty (x ∷ xs) = false

module _ (rb : Roaring) {E : Type 0} (r : Reader rb E) (seg : Segment rb) (hc : Hotcache)
    (serves : Serves rb r seg hc) (tokenize : Bytes → List Bytes) where
  -- A query that is evaluated, and to the documents that match it.
  pub record Answered (q : Node) : Type 0 where
    pub bitmap : rb.Bitmap
    pub is_ok : eval_bitmap rb r hc tokenize q ≡ ok bitmap
    pub has_is : (d : ℕ) → rb.has d bitmap ≡ matches rb seg hc tokenize d q

  is_unset : Option rb.Bitmap → Bool
  is_unset none = true
  is_unset (some bm) = false

  -- An intersection that is not begun holds every document, a union none.
  in_all : ℕ → Option rb.Bitmap → Bool
  in_all d none = true
  in_all d (some bm) = rb.has d bm

  in_any : ℕ → Option rb.Bitmap → Bool
  in_any d none = false
  in_any d (some bm) = rb.has d bm

  in_all-and_into :
      (d : ℕ) (u : Option rb.Bitmap) (bm : rb.Bitmap)
      → rb.has d (and_into rb r hc tokenize u bm) ≡ (in_all d u && rb.has d bm)
  unfolding and_into in_all
  in_all-and_into d none bm = refl
  in_all-and_into d (some u) bm = rb.has-and d u bm

  in_any-or_into :
      (d : ℕ) (u : Option rb.Bitmap) (bm : rb.Bitmap)
      → rb.has d (or_into rb u bm) ≡ (in_any d u || rb.has d bm)
  unfolding or_into in_any
  in_any-or_into d none bm = refl
  in_any-or_into d (some u) bm = rb.has-or d u bm

  and_tokens_lem :
      (field : Bytes) (ts : List Bytes) (u : Option rb.Bitmap)
      → (u' : Option rb.Bitmap) × (and_tokens rb r hc tokenize field ts u ≡ ok u')
        × ((d : ℕ) → in_all d u' ≡ (in_all d u && all_terms rb seg hc tokenize d field ts))
        × (is_unset u' ≡ (is_unset u && is_empty ts))
  unfolding and_tokens from_read is_empty is_unset
  and_tokens_lem field [] u = (u, refl, λ d. ground arith, ground arith)
  and_tokens_lem field (t ∷ ts) u =
      let g = term_bitmap-Gives rb r seg hc serves tokenize field t in
      let (u', run, has_is, unset) =
        and_tokens_lem field ts (some (and_into rb r hc tokenize u g.bitmap)) in
      (
        u',
        rw g.is_ok run,
        λ d. has_is d ∙ unfold in_all in ground (arith, in_all-and_into d u g.bitmap, g.has_is d),
        unset ∙ ground arith,
      )

  has-or_new :
      (d : ℕ) (u : Option rb.Bitmap) → rb.has d (or_new rb u) ≡ (not (is_unset u) && in_all d u)
  unfolding or_new is_unset in_all
  has-or_new d none = rb.has-new d
  has-or_new d (some u) = refl

  text_matches_lem :
      (d : ℕ) (field : Bytes) (ts : List Bytes)
      → text_matches rb seg hc tokenize d field ts
        ≡ (not (is_empty ts) && all_terms rb seg hc tokenize d field ts)
  unfolding is_empty
  text_matches_lem d field [] = refl
  text_matches_lem d field (t ∷ ts) = refl

  match-Answered : (field value : Bytes) → Answered (match field value)
  unfolding eval_bitmap
  match-Answered field value =
      let (u, run, has_is, unset) = and_tokens_lem field (tokenize value) none in
      record {
        bitmap = or_new rb u;
        is_ok = rw run refl;
        has_is = λ d.
            has-or_new d u
            ∙ rw (has_is d, unset) (unfold in_all is_unset in refl)
            ∙ sym (text_matches_lem d field (tokenize value))
            ∙ unfold matches in refl;
      }

  -- the sets that are left after Should
  has-should_into :
      (d : ℕ) (both should_bm : Option rb.Bitmap)
      → rb.has d (or_all rb r hc tokenize (should_into rb r hc tokenize both should_bm)) ≡ (
          in_all d both
          && (not (is_unset both)
              || (if is_unset should_bm then ltb d hc.doc_count else in_any d should_bm)))
  unfolding or_all should_into in_all in_any is_unset
  has-should_into d none none = rb.has-below d hc.doc_count
  has-should_into d none (some s) = refl
  has-should_into d (some b) s = ground arith

  mutual
    unfolding eval_bitmap and_nodes or_nodes without_nodes matches all_match any_match IsKnown
        from_read is_unset in_all in_any or_all

    eval_bitmap-Answered : (q : Node) → IsKnown q → Answered q
    eval_bitmap-Answered (match field value) k = match-Answered field value
    eval_bitmap-Answered (term field value) k =
        let g = term_bitmap-Gives rb r seg hc serves tokenize field value in
        record { bitmap = g.bitmap; is_ok = rw g.is_ok refl; has_is = g.has_is }
    eval_bitmap-Answered (prefix field value) k =
        let g = prefix_bitmap-Gives rb r seg hc serves tokenize field value in
        record { bitmap = g.bitmap; is_ok = rw g.is_ok refl; has_is = g.has_is }
    eval_bitmap-Answered (phrase field terms) k =
        let g = phrase_bitmap-Gives rb r seg hc serves tokenize field terms in
        record { bitmap = g.bitmap; is_ok = rw g.is_ok refl; has_is = g.has_is }
    eval_bitmap-Answered range k = record { bitmap = rb.new; is_ok = refl; has_is = rb.has-new }
    eval_bitmap-Answered (bool must should must_not filter) (km, ks, kn, kf) =
        let (u, run1, in1, unset1) = and_nodes_lem must none km in
        let (v, run2, in2, unset2) = and_nodes_lem filter u kf in
        let (s, run3, in3, unset3) = or_nodes_lem should none ks in
        let (w, run4, in4) = without_nodes_lem must_not (should_into rb r hc tokenize v s) kn in
        record {
          bitmap = or_all rb r hc tokenize w;
          is_ok = rw (run1, run2, run3, run4) refl;
          has_is = λ d.
              in4 d ∙ rw (has-should_into d v s, in2 d, in1 d, unset2, unset1, in3 d, unset3) refl;
        }
    eval_bitmap-Answered (unknown name) k = absurd k

    and_nodes_lem :
        (qs : Nodes) (u : Option rb.Bitmap)
        → AreKnown qs
        → (u' : Option rb.Bitmap) × (and_nodes rb r hc tokenize qs u ≡ ok u')
          × ((d : ℕ) → in_all d u' ≡ (in_all d u && all_match rb seg hc tokenize d qs))
          × (is_unset u' ≡ (is_unset u && is_nil qs))
    and_nodes_lem nil u k = (u, refl, λ d. ground arith, ground arith)
    and_nodes_lem (cons q qs) u (kq, k) =
        let a = eval_bitmap-Answered q kq in
        let (u', run, in', unset) =
          and_nodes_lem qs (some (and_into rb r hc tokenize u a.bitmap)) k in
        (
          u',
          rw a.is_ok run,
          λ d. in' d ∙ ground (arith, in_all-and_into d u a.bitmap, a.has_is d),
          unset ∙ ground arith,
        )

    or_nodes_lem :
        (qs : Nodes) (u : Option rb.Bitmap)
        → AreKnown qs
        → (u' : Option rb.Bitmap) × (or_nodes rb r hc tokenize qs u ≡ ok u')
          × ((d : ℕ) → in_any d u' ≡ (in_any d u || any_match rb seg hc tokenize d qs))
          × (is_unset u' ≡ (is_unset u && is_nil qs))
    or_nodes_lem nil u k = (u, refl, λ d. ground arith, ground arith)
    or_nodes_lem (cons q qs) u (kq, k) =
        let a = eval_bitmap-Answered q kq in
        let (u', run, in', unset) = or_nodes_lem qs (some (or_into rb u a.bitmap)) k in
        (
          u',
          rw a.is_ok run,
          λ d. in' d ∙ ground (arith, in_any-or_into d u a.bitmap, a.has_is d),
          unset ∙ ground arith,
        )

    without_nodes_lem :
        (qs : Nodes) (u : Option rb.Bitmap)
        → AreKnown qs
        → (u' : Option rb.Bitmap) × (without_nodes rb r hc tokenize qs u ≡ ok u')
          × ((d : ℕ)
              → rb.has d (or_all rb r hc tokenize u')
                ≡ (rb.has d (or_all rb r hc tokenize u) && not (any_match rb seg hc tokenize d qs)))
    without_nodes_lem nil u k = (u, refl, λ d. ground arith)
    without_nodes_lem (cons q qs) u (kq, k) =
        let a = eval_bitmap-Answered q kq in
        let left = rb.and_not (or_all rb r hc tokenize u) a.bitmap in
        let (u', run, in') = without_nodes_lem qs (some left) k in
        (
          u',
          rw a.is_ok run,
          λ d.
              in' d
              ∙ rw (rb.has-and_not d (or_all rb r hc tokenize u) a.bitmap, a.has_is d)
                  (ground arith),
        )

  -- With a reader that gives, for every term in the hotcache's tables, what the segment holds, a query of known node types is evaluated without an error, and the
  -- bitmap holds exactly the documents that match the query.
  pub eval_bitmap_lem : (q : Node) → IsKnown q → Answered q
  eval_bitmap_lem q k = eval_bitmap-Answered q k
