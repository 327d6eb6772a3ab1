-- ===== src/Manifest/Key.antt =====
-- The key of a manifest, `manifestKey` of pkg/index/manifest.go, with the verb `%06d` of fmt.
use s3search.Base.{ℕ, zero, suc, ◌+◌, ◌-◌, ◌/◌, ◌%◌, Bytes, [], ◌∷◌, ◌++◌, length, replicate, ltb}
use s3search.Base.{if◌then◌else◌}

-- The decimal digits, the highest first; a uint64 has twenty at most.
unfoldable pub decimal_loop : ℕ → ℕ → Bytes
decimal_loop zero v = []
decimal_loop (suc fuel) v =
    let high = decimal_loop fuel (v / 10) in
    if ltb v 10 then (v + 48) ∷ [] else high ++ (v % 10 + 48) ∷ []

unfoldable pub decimal : ℕ → Bytes
unfolding decimal_loop
decimal v = decimal_loop 20 v

-- `%06d`
unfoldable pub pad_six : ℕ → Bytes
pad_six v = replicate (6 - length (decimal v)) 48 ++ decimal v

-- "/manifest-"
abbrev pub manifest_infix : Bytes
manifest_infix = 47 ∷ 109 ∷ 97 ∷ 110 ∷ 105 ∷ 102 ∷ 101 ∷ 115 ∷ 116 ∷ 45 ∷ []

-- ".json"
abbrev pub json_suffix : Bytes
json_suffix = 46 ∷ 106 ∷ 115 ∷ 111 ∷ 110 ∷ []

unfoldable pub manifest_prefix : Bytes → Bytes
manifest_prefix index_name = index_name ++ manifest_infix

unfoldable pub manifest_key : Bytes → ℕ → Bytes
manifest_key index_name version = manifest_prefix index_name ++ (pad_six version ++ json_suffix)
