-- ===== src/Postings/Positions.antt =====
-- `PositionsEntry`, `EncodePositions` and `DecodePositions` of pkg/postings/postings.go. What is left of
-- `data` from the offset on is a list; the offset itself stands only in the texts of errors.
use s3search.Base.{ℕ, zero, suc, ◌+◌, ◌-◌, ◌%◌, ◌^◌, Bytes, List, [], ◌∷◌, ◌++◌, length, ltb}
use s3search.Base.{if◌then◌else◌, none, some, Outcome, ok, err, panic, stuck, ◌>>=◌}
use s3search.Postings.Varint.{put_uvarint, uvarint}

pub record PositionsEntry : Type 0 where
  pub doc_id : ℕ
  pub positions : List ℕ

pub data Error : Type 0 where
  bad_doc_id bad_count bad_delta : Error

-- `p - prev` on uint32
unfoldable pub delta : ℕ → ℕ → ℕ
delta p prev = (p + 2 ^ 32 - prev) % 2 ^ 32

unfoldable pub encode_deltas : ℕ → List ℕ → Bytes
unfolding delta
encode_deltas prev [] = []
encode_deltas prev (p ∷ ps) = put_uvarint (delta p prev) ++ encode_deltas p ps

unfoldable pub encode_entry : PositionsEntry → Bytes
unfolding encode_deltas
encode_entry e =
    put_uvarint e.doc_id ++ (put_uvarint (length e.positions) ++ encode_deltas 0 e.positions)

unfoldable pub encode_positions : List PositionsEntry → Bytes
unfolding encode_entry
encode_positions [] = []
encode_positions (e ∷ es) = encode_entry e ++ encode_positions es

unfoldable pub read : Error → Bytes → Outcome Error (ℕ × Bytes)
read bad bytes = elim (uvarint bytes) [ none ↦ err bad | some r ↦ ok r ]

-- `make` panics if the slice passes the 2 ^ 48 bytes that the runtime can address.
abbrev pub max_entries : ℕ
max_entries = 2 ^ 46

unfoldable pub decode_deltas : ℕ → ℕ → Bytes → Outcome Error (List ℕ × Bytes)
unfolding read
decode_deltas zero prev bytes = ok ([], bytes)
decode_deltas (suc count) prev bytes = do
  (d, rest) ← read bad_delta bytes
  let p = (prev + d % 2 ^ 32) % 2 ^ 32
  (ps, rest') ← decode_deltas count p rest
  ok (p ∷ ps, rest')

unfoldable pub decode_entry : Bytes → Outcome Error (PositionsEntry × Bytes)
unfolding read decode_deltas
decode_entry bytes = do
  (doc_id, rest) ← read bad_doc_id bytes
  (count, rest') ← read bad_count rest
  (ps, rest'') ← if ltb max_entries count then panic else decode_deltas count 0 rest'
  ok (record { doc_id = doc_id % 2 ^ 32; positions = ps }, rest'')

unfoldable pub decode_loop : ℕ → Bytes → Outcome Error (List PositionsEntry)
unfolding decode_entry
decode_loop fuel [] = ok []
decode_loop zero (b ∷ bytes) = stuck
decode_loop (suc fuel) (b ∷ bytes) = do
  (e, rest) ← decode_entry (b ∷ bytes)
  es ← decode_loop fuel rest
  ok (e ∷ es)

-- A round reads two bytes or more.
unfoldable pub decode_positions : Bytes → Outcome Error (List PositionsEntry)
unfolding decode_loop
decode_positions bytes = decode_loop (length bytes) bytes
