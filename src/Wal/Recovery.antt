-- ===== src/Wal/Recovery.antt =====
-- What `Replay` of pkg/wal/wal.go recovers: from a whole log, after a crash in the middle of a write,
-- and from any file at all.
use s3search.Base.{ℕ, suc, ◌+◌, ◌-◌, ◌<◌, ◌≤◌, max, ◌≡◌, refl, sym, ap, ◌∙◌, arith, Bytes}
use s3search.Base.{List, [], ◌++◌, append-nil, append_assoc, length, length-append, take, drop}
use s3search.Base.{take-append, drop-append}
use s3search.Base.{to_le, All, Option, some, from_le}
use s3search.Json.{Json}
use s3search.Wal.Buffer.{Wal, file_truncate, file_seek, bw_reset}
use s3search.Wal.Log.{header, truncate_to_offset}
use s3search.Wal.Contents.{Holds}
use s3search.Wal.Replay.{replay_loop, replay_end, replay_finish, replay}
use s3search.Wal.Frames.{Fits, frames, deliver, replay_loop-frames}
use s3search.Wal.Frames.{replay_loop-short, replay_loop-torn, length-frames-ge}

-- A log of whole records, `ps`, and further bytes in the file.
abbrev pub LogFile : List Bytes → Bytes → Bytes
LogFile ps rest = header ++ (frames ps ++ rest)

pub length-header : length header ≡ 8
unfolding header to_le
length-header = refl

-- `truncateToOffset` at a seam between whole records.
pub truncate_to_offset-Holds :
    (ps : List Bytes) (rest : Bytes) (w : Wal) (off : ℕ)
    → off ≡ 8 + length (frames ps)
    → w.file ≡ LogFile ps rest
    → Holds (truncate_to_offset w off) (frames ps)
unfolding truncate_to_offset file_truncate file_seek bw_reset
truncate_to_offset-Holds ps rest w off o e = record {
  file_is = rw (no_gap, append-nil) cut;
  buf_is = refl;
  at_end = rw (no_gap, append-nil, cut) (omega (arith, front));
}
  where
    front : length (header ++ frames ps) ≡ off
    front = omega (arith, length-append header (frames ps), length-header)

    whole : length w.file ≡ length (header ++ frames ps) + length rest
    whole =
        ap length (e ∙ sym (append_assoc header (frames ps) rest))
        ∙ length-append (header ++ frames ps) rest

    no_gap : off - length w.file ≡ 0
    no_gap = omega (arith, whole, front)

    cut : take off w.file ≡ header ++ frames ps
    cut =
        ap (take off) (e ∙ sym (append_assoc header (frames ps) rest))
        ∙ take-append off (header ++ frames ps) rest front

module _ {ℓ} {S : Type ℓ} (json : Json) (fn : S → Bytes → S) where
  -- The loop on a log file runs over the whole records and is then at `rest`, with fuel left.
  loop_at_rest :
      (ps : List Bytes) (rest : Bytes) (s : S)
      → All Fits ps
      → (fuel : ℕ) × (replay_loop json fn
            (suc (length (LogFile ps rest)))
            (drop 8 (LogFile ps rest))
            8
            s
          ≡ replay_loop json fn (suc fuel) rest (8 + length (frames ps)) (deliver json fn s ps))
  loop_at_rest ps rest s h = (
    length (LogFile ps rest) - length ps,
    rw (drop-append 8 header (frames ps ++ rest) length-header)
        (replay_loop-frames json fn ps _ _ rest 8 s h enough),
  )
    where
      enough :
          suc (length (LogFile ps rest)) ≡ length ps + suc (length (LogFile ps rest) - length ps)
      enough = omega (
        arith,
        length-append header (frames ps ++ rest),
        length-append (frames ps) rest,
        length-frames-ge ps,
      )

  replay_of_end :
      (ps : List Bytes) (rest : Bytes) (s : S) (w : Wal) (end : S × Option ℕ)
      → All Fits ps
      → w.file ≡ LogFile ps rest
      → ((fuel : ℕ)
          → replay_loop json fn (suc fuel) rest (8 + length (frames ps)) (deliver json fn s ps)
            ≡ some end)
      → replay json fn s w ≡ some (replay_end json fn w end)
  unfolding replay replay_finish
  replay_of_end ps rest s w end h e stops =
      let (fuel, run) = loop_at_rest ps rest s h in
      ap (replay_finish json fn w) (
        ap (λ (x : Bytes). replay_loop json fn (suc (length x)) (drop 8 x) 8 s) e
        ∙ run
        ∙ stops fuel)

  pub replay_whole :
      (ps : List Bytes) (s : S) (w : Wal)
      → All Fits ps
      → Holds w (frames ps)
      → (w' : Wal) × (replay json fn s w ≡ some (deliver json fn s ps, w')) × Holds w' (frames ps)
  unfolding replay_end file_seek
  replay_whole ps s w h k = (
    file_seek w (max 8 (length w.file)),
    replay_of_end ps [] s w _ h file_is
        (λ fuel. replay_loop-short json fn fuel [] _ _ (omega arith)),
    record { file_is = k.file_is; buf_is = k.buf_is; at_end = long },
  )
    where
      file_is : w.file ≡ LogFile ps []
      file_is = k.file_is ∙ ap (λ x. header ++ x) (sym (append-nil (frames ps)))

      long : max 8 (length w.file) ≡ length w.file
      long = omega (arith, ap length k.file_is, length-append header (frames ps), length-header)

  pub replay_torn :
      (ps : List Bytes) (rest : Bytes) (s : S) (w : Wal)
      → All Fits ps
      → w.file ≡ LogFile ps rest
      → 8 ≤ length rest
      → length (drop 8 rest) < from_le (take 4 rest)
      → (w' : Wal) × (replay json fn s w ≡ some (deliver json fn s ps, w')) × Holds w' (frames ps)
  unfolding replay_end
  replay_torn ps rest s w h e long torn = (
    truncate_to_offset w (8 + length (frames ps)),
    replay_of_end ps rest s w _ h e (λ fuel. replay_loop-torn json fn fuel rest _ _ long torn),
    truncate_to_offset-Holds ps rest w _ refl e,
  )

  -- A file whose last frame is cut short in its header: no truncation, and the torn bytes stay.
  pub replay_short :
      (ps : List Bytes) (rest : Bytes) (s : S) (w : Wal)
      → All Fits ps
      → w.file ≡ LogFile ps rest
      → length rest < 8
      → (w' : Wal) × (replay json fn s w ≡ some (deliver json fn s ps, w'))
        × (w'.file ≡ w.file)
        × (w'.buf ≡ w.buf)
        × (w'.pos ≡ length w'.file)
  unfolding replay_end file_seek
  replay_short ps rest s w h e short = (
    file_seek w (max 8 (length w.file)),
    replay_of_end ps rest s w _ h e (λ fuel. replay_loop-short json fn fuel rest _ _ short),
    refl,
    refl,
    long,
  )
    where
      long : max 8 (length w.file) ≡ length w.file
      long = omega (arith, ap length e, length-append header (frames ps ++ rest), length-header)
