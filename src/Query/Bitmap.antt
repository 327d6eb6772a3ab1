-- ===== src/Query/Bitmap.antt =====
-- What exec.go of pkg/query uses of github.com/RoaringBitmap/roaring, a set of uint32s, and of
-- github.com/blevesearch/vellum, an ordered map from terms to ids.
use s3search.Base.{
  ℕ, ◌≡◌, Bool, false, ◌&&◌, ◌||◌, not, Bytes, List, Option, ◌==◌, ltb, contains, nat_eq,
}

pub record Roaring : Type 1 where
  pub Bitmap : Type 0
  pub new : Bitmap
  -- `AddRange(0, n)` on a new bitmap, then `Add`
  pub below : ℕ → Bitmap
  pub add : ℕ → Bitmap → Bitmap
  pub and : Bitmap → Bitmap → Bitmap
  pub or : Bitmap → Bitmap → Bitmap
  pub and_not : Bitmap → Bitmap → Bitmap
  pub has : ℕ → Bitmap → Bool
  -- what the iterator runs through
  pub elements : Bitmap → List ℕ
  pub has-new : (d : ℕ) → has d new ≡ false
  pub has-below : (d n : ℕ) → has d (below n) ≡ ltb d n
  pub has-add : (d c : ℕ) (a : Bitmap) → has d (add c a) ≡ (c == d || has d a)
  pub has-and : (d : ℕ) (a b : Bitmap) → has d (and a b) ≡ (has d a && has d b)
  pub has-or : (d : ℕ) (a b : Bitmap) → has d (or a b) ≡ (has d a || has d b)
  pub has-and_not : (d : ℕ) (a b : Bitmap) → has d (and_not a b) ≡ (has d a && not (has d b))
  pub contains-elements : (d : ℕ) (a : Bitmap) → contains d (elements a) ≡ has d a

-- `fst.Get`, and what `fst.Iterator` runs through from a key on
pub record Fst : Type 0 where
  pub get : Bytes → Option ℕ
  pub iterator : Bytes → List (Bytes × ℕ)
