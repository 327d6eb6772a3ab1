-- ===== src/Store/Blob.antt =====
-- The interface `BlobStore` of pkg/store/store.go. A context and the content type have no effect here.
use s3search.Base.{
  ℕ, ◌+◌, ◌≤◌, ◌≡◌, ◌≢◌, ◌↔◌, Bool, true, false, Bytes, List, length, take, drop, Outcome, ok, err,
}
use s3search.Base.{◌=?◌, bytes_eq, contains, has_prefix, if◌then◌else◌}

-- `ErrNotFound` and `ErrPreconditionFailed`
pub data StoreError : Type 0 where
  not_found precondition_failed : StoreError

pub record BlobStore : Type 1 where
  -- the objects that the store holds
  pub State : Type 0
  pub get : State → Bytes → Outcome StoreError Bytes
  pub get_range : State → Bytes → ℕ → ℕ → Outcome StoreError Bytes
  -- the flag stands for `IfNoneMatch: "*"`
  pub put : State → Bytes → Bytes → Bool → Outcome StoreError State
  pub delete : State → Bytes → State
  pub list : State → Bytes → List Bytes
  pub head : State → Bytes → Outcome StoreError ℕ
  pub put_plain : (s : State) (k b : Bytes) → (s' : State) × (put s k b false ≡ ok s')
  pub put_new :
      (s : State) (k b : Bytes) → get s k ≡ err not_found → (s' : State) × (put s k b true ≡ ok s')
  pub put_taken :
      (s : State) (k b b' : Bytes) → get s k ≡ ok b' → put s k b true ≡ err precondition_failed
  pub get_present :
      (s : State) (k : Bytes) → get s k ≢ err not_found → (b : Bytes) × (get s k ≡ ok b)
  pub get-put :
      (s s' : State) (k j b : Bytes) (c : Bool)
      → put s k b c ≡ ok s'
      → get s' j ≡ (if k =? j then ok b else get s j)
  pub get-delete :
      (s : State) (k j : Bytes) → get (delete s k) j ≡ (if k =? j then err not_found else get s j)
  pub contains-list :
      (s : State) (p k : Bytes)
      → (contains k (list s p) ≡ true) ↔ ((has_prefix p k ≡ true) × (get s k ≢ err not_found))
  pub get_range_inside :
      (s : State) (k b : Bytes) (off len : ℕ)
      → get s k ≡ ok b
      → off + len ≤ length b
      → get_range s k off len ≡ ok (take len (drop off b))
  pub head_of : (s : State) (k b : Bytes) → get s k ≡ ok b → head s k ≡ ok (length b)
