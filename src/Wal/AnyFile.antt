-- ===== src/Wal/AnyFile.antt =====
-- `Replay` of pkg/wal/wal.go on a file of which nothing is known but its header.
use s3search.Base.{ℕ, ◌+◌, ◌<◌, ◌≤◌, ◌≡◌, ◌≢◌, Bytes, List}
use s3search.Base.{◌++◌, length, take, drop}
use s3search.Base.{All, from_le}
use s3search.Base.{Option, none, some}
use s3search.Json.{Json}
use s3search.Wal.Buffer.{Wal}
use s3search.Wal.Contents.{frame}
use s3search.Wal.Replay.{replay_loop}
use s3search.Wal.Frames.{Fits, frames, deliver}

-- No whole record stands at the front.
abbrev pub NoFrame : Bytes → Type 0
NoFrame rest = (p more : Bytes) → Fits p → rest ≢ frame p ++ more

-- How the loop stops behind the records `ps`: at less than a header, or to cut there.
data Stop (off : ℕ) (ps : List Bytes) (rest : Bytes) : Option ℕ → Type 0 where
  at_end : length rest < 8 → Stop off ps rest none
  cut : (c : ℕ) → 8 ≤ length rest → c ≡ off + length (frames ps) → Stop off ps rest (some c)

module _ {ℓ} {S : Type ℓ} (json : Json) (fn : S → Bytes → S) where
  record Ends (fuel : ℕ) (r : Bytes) (off : ℕ) (s : S) : Type ℓ where
    ps : List Bytes
    rest : Bytes
    stop : Option ℕ
    run : replay_loop json fn fuel r off s ≡ some (deliver json fn s ps, stop)
    parsed : r ≡ frames ps ++ rest
    fits : All Fits ps
    stopped : Stop off ps rest stop
    no_more : NoFrame rest

  abbrev announced_len : Bytes → ℕ
  announced_len r = from_le (take 4 r)

  abbrev payload_of : Bytes → Bytes
  payload_of r = take (announced_len r) (drop 8 r)

  abbrev rest_of : Bytes → Bytes
  rest_of r = drop (announced_len r) (drop 8 r)
