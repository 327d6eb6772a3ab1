-- ===== src/Segment/Accumulator.antt =====
-- `FieldAccumulator` of pkg/segment/writer.go: the postings of one field while documents are added.
use s3search.Base.{
  ℕ, suc, ◌-◌, Bytes, List, [], ◌∷◌, ◌++◌, length, take, drop, replicate, lookup, insert, bytes_eq,
  nat_eq, Option, none, some,
}
use s3search.Query.Bitmap.{Roaring}
use s3search.Query.Leaves.{or_nil, or_new}

-- a term's positions by document
abbrev pub DocPositions : Type 0
DocPositions = List (ℕ × List ℕ)

unfoldable pub or_empty_map : Option DocPositions → DocPositions
or_empty_map none = []
or_empty_map (some m) = m

-- `SetDoclen`: the list is first filled up with zeros.
unfoldable pub set_elem : List ℕ → ℕ → ℕ → List ℕ
set_elem xs doc_id n =
    let filled = xs ++ replicate (suc doc_id - length xs) 0 in
    take doc_id filled ++ n ∷ drop (suc doc_id) filled

module _ (rb : Roaring) where
  pub record FieldAccumulator : Type 0 where
    pub name : Bytes
    pub posting_lists : List (Bytes × rb.Bitmap)
    pub positions : List (Bytes × DocPositions)
    pub doclens : List ℕ

  unfoldable pub new_field_accumulator : Bytes → FieldAccumulator
  new_field_accumulator name = record {
    name = name;
    posting_lists = [];
    positions = [];
    doclens = [];
  }

  -- the positions of the term with one more
  unfoldable pub add_position : DocPositions → ℕ → ℕ → DocPositions
  unfolding or_nil
  add_position m doc_id pos = insert doc_id (or_nil (lookup doc_id m) ++ pos ∷ []) m

  unfoldable pub add_token : FieldAccumulator → ℕ → Bytes → ℕ → FieldAccumulator
  unfolding add_position or_new or_empty_map
  add_token fa doc_id term pos = record fa {
    posting_lists =
        insert term (rb.add doc_id (or_new rb (lookup term fa.posting_lists))) fa.posting_lists;
    positions =
        insert term (add_position (or_empty_map (lookup term fa.positions)) doc_id pos)
          fa.positions;
  }

  unfoldable pub set_doclen : FieldAccumulator → ℕ → ℕ → FieldAccumulator
  unfolding set_elem
  set_doclen fa doc_id n = record fa { doclens = set_elem fa.doclens doc_id n }
