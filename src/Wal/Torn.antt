-- ===== src/Wal/Torn.antt =====
-- What `Replay` of pkg/wal/wal.go does about a header that is torn in its middle, and what becomes of
-- the records that are appended after such a recovery.
use s3search.Base.{ℕ, ◌+◌, ◌<◌, ◌≤◌, ◌≡◌, ◌∙◌, arith, Bytes, List, [], ◌++◌}
use s3search.Base.{append-nil, append_assoc, length, length-append, take, length-take, length-drop}
use s3search.Base.{take-append_le, take-take, All, some, from_le}
use s3search.Json.{Json}
use s3search.Wal.Buffer.{Wal}
use s3search.Wal.Log.{append_payload, flush}
use s3search.Wal.Contents.{frame, Holds, flush-append_payload}
use s3search.Wal.Replay.{replay}
use s3search.Wal.Frames.{Fits, frames, length-frame, announced, deliver}
use s3search.Wal.Recovery.{LogFile, replay_torn, replay_short}

-- The first `n` bytes of a frame, with another frame behind them.
abbrev pub after_torn : ℕ → Bytes → Bytes → Bytes
after_torn n p q = take n (frame p) ++ frame q

length-after_torn :
    (n : ℕ) (p q : Bytes) → n < length (frame p) → length (after_torn n p q) ≡ n + (8 + length q)
length-after_torn n p q h =
    omega
      (arith, length-append (take n (frame p)) (frame q), length-take n (frame p), length-frame q)

announced_after_torn :
    (n : ℕ) (p q : Bytes)
    → Fits p
    → 4 ≤ n
    → n < length (frame p)
    → from_le (take 4 (after_torn n p q)) ≡ length p
announced_after_torn n p q fits long h =
    rw
      (
        take-append_le 4 (take n (frame p)) (frame q) (omega (arith, length-take n (frame p))),
        take-take 4 n (frame p) long,
      )
      (announced p fits)

module _ {ℓ} {S : Type ℓ} (json : Json) (fn : S → Bytes → S) where
  -- A frame behind the start of another is taken for the payload of that one: if it does not reach to
  -- the announced length, both are cut off.
  pub lost_in_file :
      (ps : List Bytes) (n : ℕ) (p q : Bytes) (s : S) (w : Wal)
      → All Fits ps
      → Fits p
      → 4 ≤ n
      → n + length q < length p
      → w.file ≡ LogFile ps (after_torn n p q)
      → (w' : Wal) × (replay json fn s w ≡ some (deliver json fn s ps, w')) × Holds w' (frames ps)
  lost_in_file ps n p q s w h hp long larger e =
      replay_torn json fn ps (after_torn n p q) s w h e (omega (arith, size)) (
        rw (announced_after_torn n p q hp long inside)
          (omega (arith, length-drop 8 (after_torn n p q), size)))
    where
      inside : n < length (frame p)
      inside = omega (arith, length-frame p)

      size : length (after_torn n p q) ≡ n + (8 + length q)
      size = length-after_torn n p q inside

  -- Of a record `p` that is torn within its header, behind its length field, the first `n` bytes stay in the
  -- file at `Replay`. A later record `q` for which `n + length q` is less than the length of `p` is appended
  -- and flushed behind them, and the next `Replay` cuts it off.
  pub lost_after_torn_header :
      (ps : List Bytes) (n : ℕ) (p q : Bytes) (s t : S) (w w1 : Wal)
      → All Fits ps
      → Fits p
      → 4 ≤ n
      → n < 8
      → n + length q < length p
      → w.file ≡ LogFile ps (take n (frame p))
      → w.buf ≡ []
      → replay json fn s w ≡ some (t, w1)
      → (w1.file ≡ w.file)
        × (w' : Wal) × (replay json fn s (flush (append_payload w1 q))
            ≡ some (deliver json fn s ps, w'))
        × Holds w' (frames ps)
  lost_after_torn_header ps n p q s t w w1 h hp long short larger e b run =
      let (w2, run2, same, held, end) =
        replay_short json fn ps (take n (frame p)) s w h e
          (omega (arith, length-take n (frame p))) in
      let one : w2 ≡ w1 = cc in
      let (file, _, _) = flush-append_payload w1 q (record { at_end = rw one at end }) in
      let file1 : w1.file ≡ LogFile ps (take n (frame p)) = rw one at (same ∙ e) in
      let buf1 : w1.buf ≡ [] = rw one at (held ∙ b) in
      let (w', run', holds) =
        lost_in_file ps n p q s (flush (append_payload w1 q)) h hp long larger
          (file ∙ simp (file1, buf1, append-nil, append_assoc)) in
      (rw one at same, w', run', holds)
