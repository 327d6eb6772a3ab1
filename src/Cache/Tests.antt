-- ===== src/Cache/Tests.antt =====
-- The theorems on pkg/cache/hotcache.go at a cache of two entries, with numbers for hotcaches.
use Prim.{tt}
use s3search.Base.{
  ℕ, ◌≡◌, refl, [], ◌∷◌, none, some, lookup, remove, ◌⊎◌, bytes_eq, bytes_beq, arith,
}
use s3search.Cache.{Element, HotcacheLru, find_element, get, put}
use s3search.Cache.Recency.{view, find_key, IsConsistent, get_lem}
use s3search.Cache.Consistent.{get-IsConsistent, put-hit}

-- "a" and "b"
abbrev first_entry : Element ℕ
first_entry = record { id = 1; key = 97 ∷ []; hc = 10 }

abbrev second_entry : Element ℕ
second_entry = record { id = 0; key = 98 ∷ []; hc = 20 }

abbrev two_entries : HotcacheLru ℕ
two_entries = record {
  capacity = 2;
  items = (97 ∷ [], 1) ∷ (98 ∷ [], 0) ∷ [];
  order = first_entry ∷ second_entry ∷ [];
  next_id = 2;
}

two_entries-IsConsistent : IsConsistent two_entries
unfolding find_key find_element lookup bytes_beq
two_entries-IsConsistent = record {
  linked = λ k. ground arith;
  distinct = (refl, refl, (refl, refl, tt));
}

get_lem_example :
    ((get two_entries (98 ∷ [])).1 ≡ lookup (98 ∷ []) (view two_entries.order))
    × ((get two_entries (98 ∷ []) ≡ (two_entries, none))
        ⊎ ((v : ℕ) × ((get two_entries (98 ∷ [])).1 ≡ some v)
            × (view (get two_entries (98 ∷ [])).0.order
                ≡ (98 ∷ [], v) ∷ remove (98 ∷ []) (view two_entries.order))))
get_lem_example = get_lem two_entries (98 ∷ []) two_entries-IsConsistent

get-IsConsistent_example : IsConsistent (get two_entries (98 ∷ [])).0
get-IsConsistent_example = get-IsConsistent two_entries (98 ∷ []) two_entries-IsConsistent

put-hit_example :
    (h' : HotcacheLru ℕ) × (put two_entries (98 ∷ []) 30 ≡ some h')
    × IsConsistent h'
    × (view h'.order ≡ (98 ∷ [], 30) ∷ remove (98 ∷ []) (view two_entries.order))
unfolding find_key bytes_beq
put-hit_example = put-hit two_entries (98 ∷ []) 30 second_entry two_entries-IsConsistent refl
