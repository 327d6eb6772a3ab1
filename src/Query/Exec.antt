-- ===== src/Query/Exec.antt =====
-- `evalBitmap`, `evalBool` and `SearchDocIDs` of pkg/query/exec.go, without scores. The tokenizer is the
-- interface `Tokenizer` of pkg/analyze, as the function to the terms of a text.
use s3search.Base.{Bytes, List, [], ◌∷◌, Option, none, some, Outcome, ok, err, panic, stuck, ◌>>=◌}
use s3search.Segment.Hotcache.{Hotcache}
use s3search.Query.Bitmap.{Roaring}
use s3search.Query.Node.{Node, Nodes, match, term, prefix, phrase, range, bool, unknown, nil, cons}
use s3search.Query.Leaves.{Reader, term_bitmap, prefix_bitmap, phrase_bitmap, or_into, or_new}

-- an error of the reader, and a type of node that is not known
pub data Error (E : Type 0) : Type 0 where
  read_failed : E → Error E
  unknown_type : Bytes → Error E

unfoldable pub from_read {ℓ} : {E : Type 0} {A : Type ℓ} → Outcome E A → Outcome (Error E) A
from_read (ok a) = ok a
from_read (err e) = err (read_failed e)
from_read panic = panic
from_read stuck = stuck

module _ (rb : Roaring) {E : Type 0} (r : Reader rb E) (hc : Hotcache)
    (tokenize : Bytes → List Bytes) where
  -- an intersection that is still nil
  unfoldable pub and_into : Option rb.Bitmap → rb.Bitmap → rb.Bitmap
  and_into none bm = bm
  and_into (some combined) bm = rb.and combined bm

  -- the loop over the tokens of a match
  unfoldable pub and_tokens :
      Bytes → List Bytes → Option rb.Bitmap → Outcome (Error E) (Option rb.Bitmap)
  unfolding and_into from_read
  and_tokens field [] combined = ok combined
  and_tokens field (t ∷ ts) combined = do
    bm ← from_read (term_bitmap rb r hc field t)
    and_tokens field ts (some (and_into combined bm))

  -- all documents, where there is no set yet
  unfoldable pub or_all : Option rb.Bitmap → rb.Bitmap
  or_all none = rb.below hc.doc_count
  or_all (some bm) = bm

  -- An optional clause narrows nothing where there are others: it only scores.
  unfoldable pub should_into : Option rb.Bitmap → Option rb.Bitmap → Option rb.Bitmap
  should_into none should_bm = should_bm
  should_into (some must_bm) should_bm = some must_bm

  unfoldable mutual
    unfolding or_into or_new and_into or_all and_tokens from_read should_into

    pub eval_bitmap : Node → Outcome (Error E) rb.Bitmap
    eval_bitmap (match field value) =
        and_tokens field (tokenize value) none >>= λ combined. ok (or_new rb combined)
    eval_bitmap (term field value) = from_read (term_bitmap rb r hc field value)
    eval_bitmap (prefix field value) = from_read (prefix_bitmap rb r hc field value)
    eval_bitmap (phrase field terms) = from_read (phrase_bitmap rb r hc field terms)
    eval_bitmap range = ok rb.new
    eval_bitmap (bool must should must_not filter) = do
      must_bm ← and_nodes must none
      both_bm ← and_nodes filter must_bm
      should_bm ← or_nodes should none
      bm ← without_nodes must_not (should_into both_bm should_bm)
      ok (or_all bm)
    eval_bitmap (unknown name) = err (unknown_type name)

    -- the loops of `evalBool` over Must and Filter, Should, and MustNot
    pub and_nodes : Nodes → Option rb.Bitmap → Outcome (Error E) (Option rb.Bitmap)
    and_nodes nil acc = ok acc
    and_nodes (cons child children) acc = do
      bm ← eval_bitmap child
      and_nodes children (some (and_into acc bm))

    pub or_nodes : Nodes → Option rb.Bitmap → Outcome (Error E) (Option rb.Bitmap)
    or_nodes nil acc = ok acc
    or_nodes (cons child children) acc = do
      bm ← eval_bitmap child
      or_nodes children (some (or_into rb acc bm))

    pub without_nodes : Nodes → Option rb.Bitmap → Outcome (Error E) (Option rb.Bitmap)
    without_nodes nil acc = ok acc
    without_nodes (cons child children) acc = do
      bm ← eval_bitmap child
      without_nodes children (some (rb.and_not (or_all acc) bm))

  -- the documents deleted already, where the segment has such a bitmap
  unfoldable pub without_deleted : Option rb.Bitmap → rb.Bitmap → rb.Bitmap
  without_deleted none bm = bm
  without_deleted (some del_bitmap) bm = rb.and_not bm del_bitmap

  unfoldable pub search_doc_ids : Node → Option rb.Bitmap → Outcome (Error E) rb.Bitmap
  unfolding without_deleted
  search_doc_ids q del_bitmap = eval_bitmap q >>= λ bm. ok (without_deleted del_bitmap bm)
