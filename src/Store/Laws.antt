-- ===== src/Store/Laws.antt =====
-- The store in memory of internal/testutil/memstore.go meets what pkg/store/store.go asks for.
use s3search.Base.{ℕ, ◌+◌, ◌-◌, ◌≤◌, ◌≡◌, ◌≢◌, ◌↔◌, refl, sym, ap, ◌∙◌, arith, Bool, true, false}
use s3search.Base.{
  Bytes, List, [], ◌∷◌, length, take, drop, min, Option, none, some, Outcome, ok, err,
}
use s3search.Base.{
  ◌=?◌, bytes_eq, lookup, insert, lookup-insert, lookup-remove, contains, has_prefix,
}
use s3search.Base.{if◌then◌else◌, le→ltb_false, inl, inr, Option-cases, bytes_beq_iff}
use s3search.Store.Blob.{StoreError, not_found, precondition_failed, BlobStore}
use s3search.Store.Mem.{MemStore, get, slice, get_range, put, delete, keys_under, list, head}

found : Option Bytes → Outcome StoreError Bytes
found none = err not_found
found (some b) = ok b

get-found : (m : MemStore) (k : Bytes) → get m k ≡ found (lookup k m.objects)
unfolding get found
get-found m k = ground arith

put_objects :
    (m m' : MemStore) (k b : Bytes) (c : Bool)
    → put m k b c ≡ ok m'
    → m'.objects ≡ insert k b m.objects
unfolding put
put_objects m m' k b c e = ground arith

found-if :
    (t : Bool) (b : Bytes) (o : Option Bytes)
    → found (if t then some b else o) ≡ (if t then ok b else found o)
unfolding found
found-if true b o = refl
found-if false b o = refl

-- A put that went through is what is read at its key, and nothing else has changed.
pub get-put :
    (m m' : MemStore) (k j b : Bytes) (c : Bool)
    → put m k b c ≡ ok m'
    → get m' j ≡ (if k =? j then ok b else get m j)
get-put m m' k j b c e =
    get-found m' j
    ∙ ap (λ o. found (lookup j o)) (put_objects m m' k b c e)
    ∙ ap found (lookup-insert k j b m.objects)
    ∙ found-if (k =? j) b (lookup j m.objects)
    ∙ ap (λ (o : Outcome StoreError Bytes). if k =? j then ok b else o) (sym (get-found m j))

pub put_guarded :
    (m : MemStore) (k b b' : Bytes) → get m k ≡ ok b' → put m k b true ≡ err precondition_failed
unfolding get put
put_guarded m k b b' e = ground arith

pub put_new :
    (m : MemStore) (k b : Bytes)
    → get m k ≡ err not_found
    → (m' : MemStore) × (put m k b true ≡ ok m')
unfolding get put
put_new m k b e = (record m { objects = insert k b m.objects }, ground arith)

pub put_plain : (m : MemStore) (k b : Bytes) → (m' : MemStore) × (put m k b false ≡ ok m')
unfolding put
put_plain m k b = (record m { objects = insert k b m.objects }, refl)

pub get_present :
    (m : MemStore) (k : Bytes) → get m k ≢ err not_found → (b : Bytes) × (get m k ≡ ok b)
unfolding get
get_present m k h = ground arith

pub get-delete :
    (m : MemStore) (k j : Bytes) → get (delete m k) j ≡ (if k =? j then err not_found else get m j)
unfolding get delete
get-delete m k j = ground (arith, lookup-remove k j m.objects)

contains-keys_under :
    (p k : Bytes) (m : List (Bytes × Bytes))
    → (contains k (keys_under p m) ≡ true) ↔ ((has_prefix p k ≡ true) × (lookup k m ≢ none))
unfolding contains keys_under lookup
contains-keys_under p k [] = (λ h. cc, λ h. absurd (h.1 refl))
contains-keys_under p k ((j, b) ∷ m) = ground (arith, contains-keys_under p k m, bytes_beq_iff j k)

lookup-ne-none :
    (m : MemStore) (k : Bytes) → (lookup k m.objects ≢ none) ↔ (get m k ≢ err not_found)
unfolding get
lookup-ne-none m k = ground arith

pub contains-list :
    (m : MemStore) (p k : Bytes)
    → (contains k (list m p) ≡ true) ↔ ((has_prefix p k ≡ true) × (get m k ≢ err not_found))
unfolding list
contains-list m p k =
    let inside = contains-keys_under p k m.objects in
    let present = lookup-ne-none m k in
    (λ h. ((inside.0 h).0, present.0 (inside.0 h).1), λ h. inside.1 (h.0, present.1 h.1))

slice_inside :
    (b : Bytes) (off len : ℕ) → off + len ≤ length b → slice b off len ≡ ok (take len (drop off b))
unfolding slice
slice_inside b off len h = rw (end, le→ltb_false (off + len) off (omega arith), size)
  where
    end : min (off + len) (length b) ≡ off + len
    end = omega arith

    size : off + len - off ≡ len
    size = omega arith

pub get_range_inside :
    (m : MemStore) (k b : Bytes) (off len : ℕ)
    → get m k ≡ ok b
    → off + len ≤ length b
    → (get_range m k off len).1 ≡ ok (take len (drop off b))
unfolding get get_range
get_range_inside m k b off len e h = elim (Option-cases (lookup k m.objects)) [
  | inl absent ↦ ground arith
  | inr (b', present) ↦
      let same : b' ≡ b = ground arith in rw (present, get_range, same) (slice_inside b off len h)
]

pub head_of : (m : MemStore) (k b : Bytes) → get m k ≡ ok b → head m k ≡ ok (length b)
unfolding get head
head_of m k b e = ground arith

-- The store in memory as an instance of the interface. Its record of range reads is no part of that.
abbrev pub mem_blob_store : BlobStore
mem_blob_store = record {
  State = MemStore;
  get = get;
  get_range = λ m k off len. (get_range m k off len).1;
  put = put;
  delete = delete;
  list = list;
  head = head;
  put_plain = put_plain;
  put_new = put_new;
  put_taken = put_guarded;
  get_present = get_present;
  get-put = get-put;
  get-delete = get-delete;
  contains-list = contains-list;
  get_range_inside = get_range_inside;
  head_of = head_of;
}
