-- ===== src/Wal/Prefix.antt =====
-- `TruncatePrefix` of pkg/wal/wal.go: which records are left.
use s3search.Base.{ℕ, ◌+◌, ◌<◌, ◌≤◌, ◌≡◌, sym, ap, ◌∙◌, arith, Bytes, [], ◌++◌}
use s3search.Base.{append_assoc, length, length-append, drop, drop-append, drop-all, leb}
use s3search.Base.{false, leb→le, le→leb, Bool-cases, inl, inr}
use s3search.Wal.Buffer.{Wal, bw_flush}
use s3search.Wal.Log.{header, header_size, truncate_prefix}
use s3search.Wal.Contents.{contents, IsAtEnd, Holds, bw_flush-file, truncate-Holds, keep_tail-Holds}
use s3search.Wal.Recovery.{length-header}

-- Let the log hold the header, the bytes `front` and the bytes `back`, in the file or in the buffer.
-- `TruncatePrefix` at the end of a `front` that is not empty leaves the header and `back`, all
-- of it in the file.
pub truncate_prefix_lem :
    (front back : Bytes) (w : Wal) (off : ℕ)
    → IsAtEnd w
    → contents w ≡ header ++ (front ++ back)
    → off ≡ 8 + length front
    → 8 < off
    → Holds (truncate_prefix w off) back
unfolding truncate_prefix
truncate_prefix_lem front back w off h e o some_front =
    rw large (elim (Bool-cases (leb (length (bw_flush w).file) off)) [
      | inl all ↦ rw (all, none_left (leb→le _ _ all)) (truncate-Holds (bw_flush w))
      | inr part ↦ rw (part, tail) (keep_tail-Holds (bw_flush w) back)
    ])
  where
    large : leb off header_size ≡ false
    large = ground arith

    file : (bw_flush w).file ≡ (header ++ front) ++ back
    file = bw_flush-file w h ∙ e ∙ sym (append_assoc header front back)

    seam : length (header ++ front) ≡ off
    seam = omega (arith, length-append header front, length-header)

    tail : drop off (bw_flush w).file ≡ back
    tail = ap (drop off) file ∙ drop-append off (header ++ front) back seam

    none_left : length (bw_flush w).file ≤ off → back ≡ []
    none_left short = sym tail ∙ drop-all off (bw_flush w).file short

-- At an offset within the header it does nothing.
pub truncate_prefix_header : (w : Wal) (off : ℕ) → off ≤ 8 → truncate_prefix w off ≡ w
unfolding truncate_prefix
truncate_prefix_header w off h = rw (le→leb off header_size h)
