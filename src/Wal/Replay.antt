-- ===== src/Wal/Replay.antt =====
-- `Replay` of pkg/wal/wal.go. The callback `fn` runs on a state that it may change; its error is
-- only logged there, so here it gives back the state alone.
use s3search.Base.{ℕ, zero, suc, ◌+◌, max, Bytes, length, take, drop, ltb, ◌==◌, if◌then◌else◌}
use s3search.Base.{Option, none, some, from_le}
use s3search.Json.{Json}
use s3search.Wal.Buffer.{Wal, file_seek}
use s3search.Wal.Checksum.{checksum_ieee}
use s3search.Wal.Log.{header_size, record_overhead, truncate_to_offset}

module _ {ℓ} {S : Type ℓ} (json : Json) (fn : S → Bytes → S) where
  -- one record that is physically whole
  unfoldable pub deliver_one : S → Bytes → S
  deliver_one s payload = if json.valid payload then fn s payload else s

  -- The loop over `r`, what is still to be read, from the last known-good offset. It ends at the end
  -- of the file (`none`) or asks for a truncation. The outer `none` is no end of the source's
  -- loop: the fuel ran out.
  unfoldable pub replay_loop : ℕ → Bytes → ℕ → S → Option (S × Option ℕ)
  replay_loop zero r good_offset s = none
  replay_loop (suc fuel) r good_offset s =
      let payload_len = from_le (take 4 r) in
      let want_crc = from_le (take 4 (drop 4 r)) in
      let body = drop record_overhead r in
      let payload = take payload_len body in
      let next =
        replay_loop fuel (drop payload_len body) (good_offset + record_overhead + payload_len)
          (deliver_one s payload) in
      if ltb (length r) record_overhead
      then some (s, none)
      else if ltb (length body) payload_len
      then some (s, some good_offset)
      else if checksum_ieee payload == want_crc
      then next
      else some (s, some good_offset)

  -- A clean end leaves the file's offset behind what was read.
  unfoldable pub replay_end : Wal → S × Option ℕ → S × Wal
  replay_end w (s, none) = (s, file_seek w (max header_size (length w.file)))
  replay_end w (s, some good_offset) = (s, truncate_to_offset w good_offset)

  unfoldable pub replay_finish : Wal → Option (S × Option ℕ) → Option (S × Wal)
  replay_finish w none = none
  replay_finish w (some end) = some (replay_end w end)

  -- Each round reads eight bytes or more, so the file's length is fuel enough.
  unfoldable pub replay : S → Wal → Option (S × Wal)
  replay s w =
      replay_finish w (replay_loop (suc (length w.file)) (drop header_size w.file) header_size s)
