-- ===== src/Postings/Tests.antt =====
-- The theorems on pkg/postings/postings.go at two entries, the second with positions that are not in order.
use Prim.{tt}
use s3search.Base.{◌≡◌, ◌≢◌, arith, List, [], ◌∷◌, ◌++◌, All, some, ok, stuck}
use s3search.Postings.Varint.{put_uvarint, uvarint}
use s3search.Postings.VarintRoundTrip.{uvarint-put_uvarint}
use s3search.Postings.Positions.{PositionsEntry, encode_positions, decode_positions}
use s3search.Postings.RoundTrip.{IsEntry, decode-encode_positions}
use s3search.Postings.Totality.{decode_positions-ne-stuck}

abbrev two_entries : List PositionsEntry
two_entries =
    record { doc_id = 7; positions = 0 ∷ 300 ∷ [] }
    ∷ record { doc_id = 4294967295; positions = 9 ∷ 2 ∷ [] }
    ∷ []

two_entries-IsEntry : All IsEntry two_entries
two_entries-IsEntry = (
  record {
    doc_id_fits = omega arith;
    positions_fit = (omega arith, (omega arith, tt));
    count_fits = omega arith;
  },
  (
    record {
      doc_id_fits = omega arith;
      positions_fit = (omega arith, (omega arith, tt));
      count_fits = omega arith;
    },
    tt,
  ),
)

decode-encode_positions_example : decode_positions (encode_positions two_entries) ≡ ok two_entries
decode-encode_positions_example = decode-encode_positions two_entries two_entries-IsEntry

decode_positions-ne-stuck_example : decode_positions (7 ∷ 2 ∷ 0 ∷ 300 ∷ []) ≢ stuck
decode_positions-ne-stuck_example = decode_positions-ne-stuck (7 ∷ 2 ∷ 0 ∷ 300 ∷ [])

uvarint-put_uvarint_example : uvarint (put_uvarint 70000 ++ 1 ∷ []) ≡ some (70000, 1 ∷ [])
uvarint-put_uvarint_example = uvarint-put_uvarint 70000 (1 ∷ []) (omega arith)
