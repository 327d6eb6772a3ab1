-- ===== src/Wal/Frames.antt =====
-- The records of a log as a list of payloads, and `Replay` of pkg/wal/wal.go on such a log.
use s3search.Base.{
  ℕ, zero, suc, ◌+◌, ◌*◌, ◌<◌, ◌≤◌, ◌≡◌, refl, sym, ap, ◌∙◌, arith, Bytes, List, [],
}
use s3search.Base.{
  ◌∷◌, ◌++◌, append-nil, append_assoc, length, length-append, take, drop, take-append,
}
use s3search.Base.{
  drop-append, drop-drop, take-take, length-take, length-drop, All, IsU32, to_le, from_le,
  length-to_le, from_le-to_le,
}
use s3search.Base.{take-to_le, drop-to_le, lt→ltb, le→ltb_false, ==_iff, none, some}
use s3search.Json.{Json}
use s3search.Wal.Checksum.{checksum_ieee, checksum_ieee-IsU32}
use s3search.Wal.Log.{frame_head}
use s3search.Wal.Contents.{frame}
use s3search.Wal.Replay.{deliver_one, replay_loop}

-- what the length field of a frame can hold
abbrev pub Fits : Bytes → Type 0
Fits p = IsU32 (length p)

abbrev pub frames : List Bytes → Bytes
frames [] = []
frames (p ∷ ps) = frame p ++ frames ps

pub frame-append :
    (p rest : Bytes)
    → frame p ++ rest ≡ to_le 4 (length p) ++ (to_le 4 (checksum_ieee p) ++ (p ++ rest))
unfolding frame frame_head
frame-append p rest = simp append_assoc

pub length-frame : (p : Bytes) → length (frame p) ≡ 8 + length p
unfolding frame frame_head
length-frame p = rw (length-append, length-append, length-to_le, length-to_le) (omega arith)

-- A frame read back field by field.
pub read_length : (p rest : Bytes) → Fits p → from_le (take 4 (frame p ++ rest)) ≡ length p
read_length p rest h =
    rw (frame-append p rest, take-to_le 4 (length p)) (from_le-to_le 4 (length p) h)

pub read_checksum : (p rest : Bytes) → from_le (take 4 (drop 4 (frame p ++ rest))) ≡ checksum_ieee p
read_checksum p rest =
    rw (frame-append p rest, drop-to_le 4 (length p), take-to_le 4 (checksum_ieee p))
      (from_le-to_le 4 (checksum_ieee p) (checksum_ieee-IsU32 p))

pub announced : (p : Bytes) → Fits p → from_le (take 4 (frame p)) ≡ length p
announced p h = ap (λ x. from_le (take 4 x)) (sym (append-nil (frame p))) ∙ read_length p [] h

-- The start of a frame with its whole header announces more than follows.
pub torn_frame :
    (p : Bytes) (n : ℕ)
    → Fits p
    → 8 ≤ n
    → n < length (frame p)
    → length (drop 8 (take n (frame p))) < from_le (take 4 (take n (frame p)))
torn_frame p n h long cut =
    rw (take-take 4 n (frame p) (omega arith), announced p h)
      (omega (arith, length-drop 8 (take n (frame p)), length-take n (frame p), length-frame p))

pub drop_head : (p rest : Bytes) → drop 8 (frame p ++ rest) ≡ p ++ rest
drop_head p rest =
    sym (drop-drop 4 4 (frame p ++ rest))
    ∙ rw (frame-append p rest, drop-to_le 4 (length p)) (drop-to_le 4 (checksum_ieee p) (p ++ rest))

module _ {ℓ} {S : Type ℓ} (json : Json) (fn : S → Bytes → S) where
  -- The records that hold valid JSON reach the callback, in their order.
  unfoldable pub deliver : S → List Bytes → S
  deliver s [] = s
  deliver s (p ∷ ps) = deliver (deliver_one json fn s p) ps

  -- One round on a whole frame.
  pub replay_loop-frame :
      (fuel : ℕ) (p rest : Bytes) (off : ℕ) (s : S)
      → Fits p
      → replay_loop json fn (suc fuel) (frame p ++ rest) off s
        ≡ replay_loop json fn fuel rest (off + 8 + length p) (deliver_one json fn s p)
  unfolding replay_loop
  replay_loop-frame fuel p rest off s h = rw (
    read_length p rest h,
    read_checksum p rest,
    drop_head p rest,
    take-append (length p) p rest refl,
    drop-append (length p) p rest refl,
    le→ltb_false (length (frame p ++ rest)) 8
        (omega (arith, length-append (frame p) rest, length-frame p)),
    le→ltb_false (length (p ++ rest)) (length p) (omega (arith, length-append p rest)),
    (==_iff (checksum_ieee p) (checksum_ieee p)).1 refl,
  )

  -- Whole frames are read one by one, whatever follows them.
  pub replay_loop-frames :
      (ps : List Bytes) (fuel n : ℕ) (rest : Bytes) (off : ℕ) (s : S)
      → All Fits ps
      → n ≡ length ps + fuel
      → replay_loop json fn n (frames ps ++ rest) off s
        ≡ replay_loop json fn fuel rest (off + length (frames ps)) (deliver s ps)
  unfolding deliver
  replay_loop-frames [] fuel n rest off s h e = cc (same, stay)
    where
      same : n ≡ fuel
      same = omega arith

      stay : off + 0 ≡ off
      stay = omega arith
  replay_loop-frames (p ∷ ps) fuel zero rest off s h e = absurd (omega arith)
  replay_loop-frames (p ∷ ps) fuel (suc n) rest off s (hp, h) e =
      rw (append_assoc (frame p) (frames ps) rest) (
        replay_loop-frame n p (frames ps ++ rest) off s hp
        ∙ replay_loop-frames ps fuel n rest (off + 8 + length p) (deliver_one json fn s p) h
            (omega arith)
        ∙ ap (λ (o : ℕ). replay_loop json fn fuel rest o (deliver s (p ∷ ps))) further)
    where
      further : off + 8 + length p + length (frames ps) ≡ off + length (frame p ++ frames ps)
      further = omega (arith, length-append (frame p) (frames ps), length-frame p)

  -- The end of the file, with at most seven bytes of a header left.
  pub replay_loop-short :
      (fuel : ℕ) (rest : Bytes) (off : ℕ) (s : S)
      → length rest < 8
      → replay_loop json fn (suc fuel) rest off s ≡ some (s, none)
  unfolding replay_loop
  replay_loop-short fuel rest off s h = rw (lt→ltb (length rest) 8 h)

  -- A header with less than its payload behind it.
  pub replay_loop-torn :
      (fuel : ℕ) (rest : Bytes) (off : ℕ) (s : S)
      → 8 ≤ length rest
      → length (drop 8 rest) < from_le (take 4 rest)
      → replay_loop json fn (suc fuel) rest off s ≡ some (s, some off)
  unfolding replay_loop
  replay_loop-torn fuel rest off s h k =
      rw (le→ltb_false (length rest) 8 h, lt→ltb (length (drop 8 rest)) (from_le (take 4 rest)) k)

pub length-frames-ge : (ps : List Bytes) → 8 * length ps ≤ length (frames ps)
length-frames-ge [] = omega arith
length-frames-ge (p ∷ ps) =
    omega (arith, length-append (frame p) (frames ps), length-frame p, length-frames-ge ps)

pub frames-append : (ps qs : List Bytes) → frames (ps ++ qs) ≡ frames ps ++ frames qs
frames-append [] qs = refl
frames-append (p ∷ ps) qs =
    ap (λ x. frame p ++ x) (frames-append ps qs)
    ∙ sym (append_assoc (frame p) (frames ps) (frames qs))
