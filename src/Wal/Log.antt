-- ===== src/Wal/Log.antt =====
-- The operations of the type `WAL` of pkg/wal/wal.go but for `Open` and `Replay`.
use s3search.Base.{ℕ, Bytes, [], ◌∷◌, ◌++◌, length, drop, leb, Bool, none, some}
use s3search.Base.{Outcome, ok, err, to_le, if◌then◌else◌}
use s3search.Json.{Json}
use s3search.Wal.Buffer.{Wal, file_write, file_truncate, file_seek, bw_flush, bw_reset, bw_write}
use s3search.Wal.Checksum.{checksum_ieee}

-- `ErrLocked`, the failed read of a header, a bad document, and the scanner's `ErrTooLong`
pub data Error : Type 0 where
  locked short_header invalid_json too_long : Error

abbrev pub wal_magic : ℕ
wal_magic = 0x53334c57

abbrev pub wal_version : ℕ
wal_version = 2

abbrev pub header_size : ℕ
header_size = 8

abbrev pub record_overhead : ℕ
record_overhead = 8

-- the array `hdr` of `writeHeader`
unfoldable pub header : Bytes
header = to_le 4 wal_magic ++ wal_version ∷ 0 ∷ 0 ∷ 0 ∷ []

unfoldable pub write_header : Wal → Wal
write_header w = bw_flush (bw_write w header)

-- the array `rec` of `Append`
unfoldable pub frame_head : Bytes → Bytes
frame_head payload = to_le 4 (length payload) ++ to_le 4 (checksum_ieee payload)

unfoldable pub append_payload : Wal → Bytes → Wal
append_payload w payload = bw_write (bw_write w (frame_head payload)) payload

unfoldable pub flush : Wal → Wal
flush w = bw_flush w

unfoldable pub discard_buffer : Wal → Wal
discard_buffer w = bw_reset w

-- the file emptied and begun anew, as `Truncate`, `TruncatePrefix` and `migrateV1ToV2` do it
unfoldable pub restart : Wal → Wal
restart w = write_header (bw_reset (file_seek (file_truncate w 0) 0))

unfoldable pub truncate : Wal → Wal
unfolding restart
truncate w = restart (bw_flush w)

unfoldable pub position : Wal → Wal × ℕ
position w = let w' = bw_flush w in (w', length w'.file)

unfoldable pub keep_tail : Wal → Bytes → Wal
unfolding restart
keep_tail w tail = let w' = file_write (restart w) tail in file_seek w' (length w'.file)

unfoldable pub truncate_prefix : Wal → ℕ → Wal
unfolding truncate keep_tail
truncate_prefix w off =
    if leb off header_size
    then w
    else let w' = bw_flush w in
      if leb (length w'.file) off then truncate w' else keep_tail w' (drop off w'.file)

-- The file that `Close` leaves behind; the lock goes with it.
unfoldable pub close : Wal → Bytes
close w = (bw_flush w).file

unfoldable pub is_empty : Wal → Bool
is_empty w = leb (length w.file) header_size

unfoldable pub truncate_to_offset : Wal → ℕ → Wal
truncate_to_offset w off = bw_reset (file_seek (file_truncate w off) off)

module _ (json : Json) where
  -- An invalid document is refused and the log is as it was.
  unfoldable pub append : Wal → Bytes → Outcome Error Wal
  unfolding append_payload
  append w raw_json = elim (json.compact raw_json) [
    | none ↦ err invalid_json
    | some payload ↦ ok (append_payload w payload)
  ]
