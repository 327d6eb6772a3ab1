-- ===== src/Postings/Varint.antt =====
-- `binary.PutUvarint` and `binary.Uvarint` of encoding/binary, on which pkg/postings/postings.go rests:
-- seven bits a byte, the lowest first. The source's bits of one byte are written as arithmetic, and
-- `x | y` of numbers with no common bit as a sum.
use s3search.Base.{
  ℕ, zero, suc, ◌+◌, ◌*◌, ◌/◌, ◌%◌, ◌^◌, Bytes, [], ◌∷◌, ltb, ◌==◌, if◌then◌else◌, ◌&&◌,
}
use s3search.Base.{Option, none, some}

-- A round writes `byte(v) | 0x80` and goes on with `v >> 7`. After nine rounds a uint64 is below two.
unfoldable pub put_uvarint_loop : ℕ → ℕ → Bytes
put_uvarint_loop zero v = v % 256 ∷ []
put_uvarint_loop (suc k) v =
    let rest = put_uvarint_loop k (v / 128) in if ltb v 128 then v ∷ [] else (v % 128 + 128) ∷ rest

-- `appendVarint` writes these bytes
unfoldable pub put_uvarint : ℕ → Bytes
unfolding put_uvarint_loop
put_uvarint v = put_uvarint_loop 9 (v % 2 ^ 64)

-- The value and the bytes behind it; `none` where the count `n` of the source is not positive. `i`
-- bytes are read, and hold `x`.
unfoldable pub uvarint_loop : ℕ → ℕ → Bytes → Option (ℕ × Bytes)
uvarint_loop i x [] = none
uvarint_loop i x (b ∷ rest) =
    let more = uvarint_loop (i + 1) ((x + b % 128 * 2 ^ (7 * i)) % 2 ^ 64) rest in
    if i == 10
    then none
    else if ltb b 128
    then (if i == 9 && ltb 1 b then none else some ((x + b * 2 ^ (7 * i)) % 2 ^ 64, rest))
    else more

unfoldable pub uvarint : Bytes → Option (ℕ × Bytes)
unfolding uvarint_loop
uvarint bytes = uvarint_loop 0 0 bytes
