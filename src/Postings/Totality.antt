-- ===== src/Postings/Totality.antt =====
-- `DecodePositions` of pkg/postings/postings.go on any input: how much it reads, and that it ends.
use s3search.Base.{ℕ, zero, suc, ◌+◌, ◌%◌, ◌^◌, ◌<◌, ◌≤◌, ◌≡◌, ◌≢◌, arith, Bytes, List, []}
use s3search.Base.{◌∷◌, length, ok, panic, stuck, >>=-eq-ok, >>=-ne-stuck, ok-ne-stuck, ltb}
use s3search.Base.{Bool-cases, inl, inr, if◌then◌else◌}
use s3search.Postings.VarintRoundTrip.{uvarint_shorter}
use s3search.Postings.Positions.{
  PositionsEntry, Error, bad_doc_id, bad_count, bad_delta, max_entries,
}
use s3search.Postings.Positions.{read, decode_deltas, decode_entry, decode_loop, decode_positions}

read_shorter :
    (bad : Error) (bytes : Bytes) (v : ℕ) (rest : Bytes)
    → read bad bytes ≡ ok (v, rest)
    → length rest < length bytes
unfolding read
read_shorter bad bytes v rest e = ground (arith, uvarint_shorter bytes v rest)

read-ne-stuck : (bad : Error) (bytes : Bytes) → read bad bytes ≢ stuck
unfolding read
read-ne-stuck bad bytes e = ground arith

decode_deltas_shorter :
    (count prev : ℕ) (bytes : Bytes) (ps : List ℕ) (rest : Bytes)
    → decode_deltas count prev bytes ≡ ok (ps, rest)
    → length rest ≤ length bytes
unfolding decode_deltas
decode_deltas_shorter zero prev bytes ps rest e = ground arith
decode_deltas_shorter (suc count) prev bytes ps rest e =
    let ((d, rest1), e1, k1) = >>=-eq-ok (read bad_delta bytes) _ e in
    let p = (prev + d % 2 ^ 32) % 2 ^ 32 in
    let ((ps', rest2), e2, k2) = >>=-eq-ok (decode_deltas count p rest1) _ k1 in
    ground (
      arith,
      read_shorter bad_delta bytes d rest1 e1,
      decode_deltas_shorter count p rest1 ps' rest2 e2,
    )

-- A decoded entry has used up two bytes or more.
pub decode_entry_shorter :
    (bytes : Bytes) (e : PositionsEntry) (rest : Bytes)
    → decode_entry bytes ≡ ok (e, rest)
    → length rest < length bytes
unfolding decode_entry
decode_entry_shorter bytes e rest h =
    let ((doc_id, rest1), e1, k1) = >>=-eq-ok (read bad_doc_id bytes) _ h in
    let ((count, rest2), e2, k2) = >>=-eq-ok (read bad_count rest1) _ k1 in
    let ((ps, rest3), e3, k3) =
      >>=-eq-ok (if ltb max_entries count then panic else decode_deltas count 0 rest2) _ k2 in
    ground (
      arith,
      read_shorter bad_doc_id bytes doc_id rest1 e1,
      read_shorter bad_count rest1 count rest2 e2,
      decode_deltas_shorter count 0 rest2 ps rest3,
    )

decode_deltas-ne-stuck : (count prev : ℕ) (bytes : Bytes) → decode_deltas count prev bytes ≢ stuck
unfolding decode_deltas
decode_deltas-ne-stuck zero prev bytes = ok-ne-stuck ([], bytes)
decode_deltas-ne-stuck (suc count) prev bytes =
    >>=-ne-stuck (read bad_delta bytes) _ (read-ne-stuck bad_delta bytes) λ a e.
      let p = (prev + a.0 % 2 ^ 32) % 2 ^ 32 in
      >>=-ne-stuck (decode_deltas count p a.1) _ (decode_deltas-ne-stuck count p a.1)
        λ b k. ok-ne-stuck (p ∷ b.0, b.1)

counted-ne-stuck :
    (count : ℕ) (bytes : Bytes)
    → (if ltb max_entries count then panic else decode_deltas count 0 bytes) ≢ stuck
counted-ne-stuck count bytes e = elim (Bool-cases (ltb max_entries count)) [
  | inl many ↦ ground arith
  | inr fits ↦ decode_deltas-ne-stuck count 0 bytes (rw fits at e)
]

decode_entry-ne-stuck : (bytes : Bytes) → decode_entry bytes ≢ stuck
unfolding decode_entry
decode_entry-ne-stuck bytes =
    >>=-ne-stuck (read bad_doc_id bytes) _ (read-ne-stuck bad_doc_id bytes) λ a e.
      >>=-ne-stuck (read bad_count a.1) _ (read-ne-stuck bad_count a.1) λ b k.
        >>=-ne-stuck (if ltb max_entries b.0 then panic else decode_deltas b.0 0 b.1) _
          (counted-ne-stuck b.0 b.1) λ c l. ok-ne-stuck _

decode_loop-ne-stuck :
    (fuel : ℕ) (bytes : Bytes) → length bytes ≤ fuel → decode_loop fuel bytes ≢ stuck
unfolding decode_loop
decode_loop-ne-stuck fuel [] h = ok-ne-stuck []
decode_loop-ne-stuck zero (b ∷ bytes) h = absurd (omega arith)
decode_loop-ne-stuck (suc fuel) (b ∷ bytes) h =
    >>=-ne-stuck (decode_entry (b ∷ bytes)) _ (decode_entry-ne-stuck (b ∷ bytes)) λ a e.
      >>=-ne-stuck (decode_loop fuel a.1) _
        (decode_loop-ne-stuck fuel a.1 (omega (arith, decode_entry_shorter (b ∷ bytes) a.0 a.1 e)))
        λ c k. ok-ne-stuck (a.0 ∷ c)

-- On every byte string `DecodePositions` ends, with entries, with an error or with a panic: its loop
-- never runs out of fuel.
pub decode_positions-ne-stuck : (bytes : Bytes) → decode_positions bytes ≢ stuck
unfolding decode_positions
decode_positions-ne-stuck bytes = decode_loop-ne-stuck (length bytes) bytes (omega arith)
