-- ===== src/Postings/RoundTrip.antt =====
-- Decoding the positions that pkg/postings/postings.go encoded.
use s3search.Base.{ℕ, zero, suc, ◌+◌, ◌%◌, ◌^◌, ◌<◌, ◌≤◌, ◌≡◌, refl, arith, Bytes, List, []}
use s3search.Base.{◌∷◌, ◌++◌, append_assoc, length, IsU32, All}
use s3search.Base.{ok, le→ltb_false}
use s3search.Postings.Varint.{put_uvarint, uvarint}
use s3search.Postings.VarintRoundTrip.{uvarint-put_uvarint}
use s3search.Postings.Totality.{decode_entry_shorter}
use s3search.Postings.Positions.{
  PositionsEntry, Error, bad_doc_id, bad_count, bad_delta, delta, max_entries,
}
use s3search.Postings.Positions.{encode_deltas, encode_entry, encode_positions, read, decode_deltas}
use s3search.Postings.Positions.{decode_entry, decode_loop, decode_positions}

-- The fields of an entry hold uint32s, and a slice of its length can be made.
pub record IsEntry (e : PositionsEntry) : Type 0 where
  pub doc_id_fits : IsU32 e.doc_id
  pub positions_fit : All IsU32 e.positions
  pub count_fits : length e.positions ≤ max_entries

read-put :
    (bad : Error) (v : ℕ) (rest : Bytes)
    → v < 2 ^ 64
    → read bad (put_uvarint v ++ rest) ≡ ok (v, rest)
unfolding read
read-put bad v rest h = rw (uvarint-put_uvarint v rest h, read)

-- The difference on uint32 is taken back on uint32, also where it wrapped.
delta_back : (p prev : ℕ) → IsU32 p → IsU32 prev → (prev + delta p prev % 2 ^ 32) % 2 ^ 32 ≡ p
unfolding delta
delta_back p prev h k = omega arith

delta-lt : (p prev : ℕ) → delta p prev < 2 ^ 64
unfolding delta
delta-lt p prev = omega arith

decode-encode_deltas :
    (ps : List ℕ) (prev : ℕ) (rest : Bytes)
    → All IsU32 ps
    → IsU32 prev
    → decode_deltas (length ps) prev (encode_deltas prev ps ++ rest) ≡ ok (ps, rest)
unfolding decode_deltas encode_deltas
decode-encode_deltas [] prev rest h k = refl
decode-encode_deltas (p ∷ ps) prev rest (hp, h) k = rw (
  append_assoc (put_uvarint (delta p prev)) (encode_deltas p ps) rest,
  read-put bad_delta (delta p prev) (encode_deltas p ps ++ rest) (delta-lt p prev),
  delta_back p prev hp k,
  decode-encode_deltas ps p rest h hp,
)

decode-encode_entry :
    (e : PositionsEntry) (rest : Bytes)
    → IsEntry e
    → decode_entry (encode_entry e ++ rest) ≡ ok (e, rest)
unfolding decode_entry encode_entry
decode-encode_entry e rest h = rw (
  append_assoc (put_uvarint e.doc_id),
  append_assoc (put_uvarint (length e.positions)) (encode_deltas 0 e.positions) rest,
  read-put bad_doc_id e.doc_id _ (omega (arith, h.doc_id_fits)),
  read-put bad_count (length e.positions) _ (omega (arith, h.count_fits)),
  le→ltb_false max_entries (length e.positions) h.count_fits,
  decode-encode_deltas e.positions 0 rest h.positions_fit (omega arith),
  id_fits,
)
  where
    id_fits : e.doc_id % 2 ^ 32 ≡ e.doc_id
    id_fits = omega (arith, h.doc_id_fits)

decode_loop-step :
    (fuel : ℕ) (bytes : Bytes) {e : PositionsEntry} {rest : Bytes} {es : List PositionsEntry}
    → decode_entry bytes ≡ ok (e, rest)
    → decode_loop fuel rest ≡ ok es
    → decode_loop (suc fuel) bytes ≡ ok (e ∷ es)
unfolding decode_loop
decode_loop-step fuel [] h k = unfold decode_entry uvarint in cc
decode_loop-step fuel (b ∷ bytes) h k = rw (h, k)

decode_loop-encode :
    (es : List PositionsEntry) (fuel : ℕ)
    → All IsEntry es
    → length (encode_positions es) ≤ fuel
    → decode_loop fuel (encode_positions es) ≡ ok es
unfolding encode_positions
decode_loop-encode [] fuel h f = unfold decode_loop in refl
decode_loop-encode (e ∷ es) fuel (he, h) f = with_fuel fuel f (decode_loop-encode es)
  where
    entry : decode_entry (encode_entry e ++ encode_positions es) ≡ ok (e, encode_positions es)
    entry = decode-encode_entry e (encode_positions es) he

    shorter : length (encode_positions es) < length (encode_entry e ++ encode_positions es)
    shorter = decode_entry_shorter _ e (encode_positions es) entry

    with_fuel :
        (n : ℕ)
        → length (encode_entry e ++ encode_positions es) ≤ n
        → ((m : ℕ)
            → All IsEntry es
            → length (encode_positions es) ≤ m
            → decode_loop m (encode_positions es) ≡ ok es)
        → decode_loop n (encode_entry e ++ encode_positions es) ≡ ok (e ∷ es)
    with_fuel zero k later = absurd (omega (arith, shorter))
    with_fuel (suc n) k later =
        decode_loop-step n (encode_entry e ++ encode_positions es) entry
          (later n h (omega (arith, shorter)))

-- Whatever entries of uint32s were encoded, sorted or not, with at most 2 ^ 46 positions each,
-- `DecodePositions` gives back the same.
pub decode-encode_positions :
    (es : List PositionsEntry) → All IsEntry es → decode_positions (encode_positions es) ≡ ok es
unfolding decode_positions
decode-encode_positions es h = decode_loop-encode es (length (encode_positions es)) h (omega arith)
