-- ===== src/Cache.antt =====
-- pkg/cache/hotcache.go: the LRU cache of hotcaches. The pointers into the list of entries are numbers of the
-- entries. The mutex guards each call as a whole, and the metrics are left out.
use s3search.Base.{
  ℕ, zero, suc, ◌+◌, Bytes, List, [], ◌∷◌, length, ltb, ◌==◌, bytes_eq, lookup, insert, remove,
  last?, if◌then◌else◌, Option, none, some,
}
mod Recency
mod Consistent
mod Tests

-- a list element and its entry
pub record Element {ℓ} (A : Type ℓ) : Type ℓ where
  pub id : ℕ
  pub key : Bytes
  pub hc : A

pub record HotcacheLru {ℓ} (A : Type ℓ) : Type ℓ where
  pub capacity : ℕ
  pub items : List (Bytes × ℕ)
  -- the most recent first
  pub order : List (Element A)
  pub next_id : ℕ

module _ {ℓ} {A : Type ℓ} where
  -- A capacity of zero or less is 128.
  unfoldable pub new_hotcache_lru : ℕ → HotcacheLru A
  new_hotcache_lru capacity = record {
    capacity = (if capacity == 0 then 128 else capacity);
    items = [];
    order = [];
    next_id = 0;
  }

  unfoldable pub find_element : ℕ → List (Element A) → Option (Element A)
  find_element id [] = none
  find_element id (e ∷ es) = let rest = find_element id es in if e.id == id then some e else rest

  unfoldable pub without_element : ℕ → List (Element A) → List (Element A)
  without_element id [] = []
  without_element id (e ∷ es) =
      let rest = without_element id es in if e.id == id then es else e ∷ rest

  -- `order.MoveToFront(el)`, with what the entry holds from then on
  unfoldable pub to_front : Element A → List (Element A) → List (Element A)
  unfolding without_element
  to_front e es = e ∷ without_element e.id es

  -- `Get` at the element that the key has
  unfoldable pub get_at : HotcacheLru A → Option (Element A) → HotcacheLru A × Option A
  unfolding to_front
  get_at h none = (h, none)
  get_at h (some e) = (record h { order = to_front e h.order }, some e.hc)

  unfoldable pub element_of : HotcacheLru A → Option ℕ → Option (Element A)
  unfolding find_element
  element_of h none = none
  element_of h (some id) = find_element id h.order

  unfoldable pub get : HotcacheLru A → Bytes → HotcacheLru A × Option A
  unfolding get_at element_of
  get h key = get_at h (element_of h (lookup key h.items))

  -- the loop that evicts from the back, as long as there are too many
  unfoldable pub evict : ℕ → HotcacheLru A → Option (HotcacheLru A)
  unfolding without_element
  evict zero h = none
  evict (suc fuel) h =
      if ltb h.capacity (length h.order)
      then elim (last? h.order) [
        | none ↦ some h
        | some back ↦
            evict fuel (record h {
              order = without_element back.id h.order;
              items = remove back.key h.items;
            })
      ]
      else some h

  unfoldable pub push_front : HotcacheLru A → Bytes → A → HotcacheLru A
  push_front h key hc = record h {
    order = record { id = h.next_id; key = key; hc = hc } ∷ h.order;
    items = insert key h.next_id h.items;
    next_id = suc h.next_id;
  }

  unfoldable pub put_at : HotcacheLru A → Bytes → A → Option (Element A) → Option (HotcacheLru A)
  unfolding to_front evict push_front
  put_at h key hc none = evict (suc (suc (length h.order))) (push_front h key hc)
  put_at h key hc (some e) = some (record h { order = to_front (record e { hc = hc }) h.order })

  -- Each round of the loop shortens the list, so its length is fuel enough.
  unfoldable pub put : HotcacheLru A → Bytes → A → Option (HotcacheLru A)
  unfolding put_at element_of
  put h key hc = put_at h key hc (element_of h (lookup key h.items))
