-- ===== src/Query/Deleted.antt =====
-- `SearchDocIDs` of pkg/query/exec.go, which leaves out what was deleted before.
use s3search.Base.{
  ℕ, ◌≡◌, refl, ◌∙◌, arith, Bool, false, ◌&&◌, not, Bytes, List, Option, none, some, ok,
}
use s3search.Segment.Hotcache.{Hotcache}
use s3search.Query.Bitmap.{Roaring}
use s3search.Query.Node.{Node}
use s3search.Query.Leaves.{Reader}
use s3search.Query.Exec.{without_deleted, search_doc_ids}
use s3search.Query.Matches.{Segment, Serves, IsKnown, matches}
use s3search.Query.Answers.{eval_bitmap_lem}

-- a document that a bitmap of deletes holds
abbrev pub is_deleted : (rb : Roaring) → ℕ → Option rb.Bitmap → Bool
is_deleted rb d none = false
is_deleted rb d (some del_bitmap) = rb.has d del_bitmap

has-without_deleted :
    (rb : Roaring) {E : Type 0} (r : Reader rb E) (hc : Hotcache) (tokenize : Bytes → List Bytes)
    (d : ℕ) (del : Option rb.Bitmap) (bm : rb.Bitmap)
    → rb.has d (without_deleted rb r hc tokenize del bm)
      ≡ (rb.has d bm && not (is_deleted rb d del))
unfolding without_deleted
has-without_deleted rb r hc tokenize d none bm = ground arith
has-without_deleted rb r hc tokenize d (some del) bm = rb.has-and_not d bm del

-- With a reader that gives, for every term in the hotcache's tables, what the segment holds, and a query of known node types, `SearchDocIDs` succeeds with
-- exactly the documents that match the query and are not deleted yet.
pub search_doc_ids_lem :
    (rb : Roaring) {E : Type 0} (r : Reader rb E) (seg : Segment rb) (hc : Hotcache)
    (tokenize : Bytes → List Bytes) (q : Node) (del : Option rb.Bitmap)
    → Serves rb r seg hc
    → IsKnown q
    → (bm : rb.Bitmap) × (search_doc_ids rb r hc tokenize q del ≡ ok bm)
      × ((d : ℕ) → rb.has d bm ≡ (matches rb seg hc tokenize d q && not (is_deleted rb d del)))
unfolding search_doc_ids
search_doc_ids_lem rb r seg hc tokenize q del serves known =
    let a = eval_bitmap_lem rb r seg hc serves tokenize q known in
    (
      without_deleted rb r hc tokenize del a.bitmap,
      rw a.is_ok refl,
      λ d. has-without_deleted rb r hc tokenize d del a.bitmap ∙ rw (a.has_is d) refl,
    )
