-- ===== src/Wal/Discard.antt =====
-- `DiscardBuffer` of pkg/wal/wal.go, which throws away what the writer still holds, but not what it has
-- already passed on to the file.
use s3search.Base.{
  ℕ, ◌+◌, ◌-◌, ◌<◌, ◌≤◌, ◌≡◌, refl, sym, ap, ◌∙◌, arith, Bytes, List, [], ◌∷◌, ◌++◌,
}
use s3search.Base.{append-nil, append_assoc, length, length-append, take, drop, length-drop}
use s3search.Base.{All, some, le→leb, lt→leb_false, take-append_more, length-to_le}
use s3search.Json.{Json}
use s3search.Wal.Buffer.{
  Wal, buffer_size, bw_flush, bw_reset, bw_write_empty, bw_write_held, bw_write_by, bw_write,
}
use s3search.Wal.Log.{header, frame_head, append_payload, discard_buffer, flush}
use s3search.Wal.Contents.{
  frame, Holds, IsAtEnd, flush-append_payload, bw_flush-file, bw_flush-IsAtEnd,
}
use s3search.Wal.Replay.{replay}
use s3search.Wal.Frames.{Fits, frames, deliver}
use s3search.Wal.Recovery.{LogFile}
use s3search.Wal.Torn.{lost_in_file}

length-frame_head : (p : Bytes) → length (frame_head p) ≡ 8
unfolding frame_head
length-frame_head p = rw (length-append, length-to_le, length-to_le)

bw_write_by-held :
    (w : Wal) (held p : Bytes) → 0 < length held → bw_write_by w held p ≡ bw_write_held w held p
unfolding bw_write_by
bw_write_by-held w [] p h = absurd (omega arith)
bw_write_by-held w (b ∷ held) p h = refl

-- The frame head fits an empty buffer.
head_buffered :
    (w : Wal) (p : Bytes) → w.buf ≡ [] → bw_write w (frame_head p) ≡ record w { buf = frame_head p }
unfolding bw_write bw_write_by bw_write_empty
head_buffered w p e =
    ap (λ b. bw_write_by w b (frame_head p)) e
    ∙ rw (le→leb (length (frame_head p)) buffer_size (omega (arith, length-frame_head p)))

-- A payload that fills the buffer behind its head once, and whose rest fits the buffer again.
payload_spilled :
    (w : Wal) (head p : Bytes)
    → 0 < length head
    → buffer_size - length head < length p
    → length p ≤ buffer_size - length head + buffer_size
    → bw_write (record w { buf = head }) p
      ≡ record (bw_flush (record w { buf = head ++ take (buffer_size - length head) p })) {
        buf = drop (buffer_size - length head) p;
      }
unfolding bw_write bw_write_held bw_write_empty
payload_spilled w head p h large bounded =
    bw_write_by-held (record w { buf = head }) head p h
    ∙ rw (
      lt→leb_false (length p) (buffer_size - length head) large,
      le→leb (length (drop (buffer_size - length head) p)) buffer_size
          (omega (arith, length-drop (buffer_size - length head) p)),
    )

-- After an append of a payload that spills over the buffer, the file has the first 64 KB of the frame,
-- and `DiscardBuffer` leaves them there.
discard_large :
    (ps : List Bytes) (p : Bytes) (w : Wal)
    → Holds w (frames ps)
    → 65528 < length p
    → length p ≤ 131064
    → ((discard_buffer (append_payload w p)).file ≡ LogFile ps (take buffer_size (frame p)))
      × ((discard_buffer (append_payload w p)).buf ≡ [])
      × IsAtEnd (discard_buffer (append_payload w p))
unfolding discard_buffer append_payload bw_reset
discard_large ps p w h large bounded = rw spilled (
  bw_flush-file filled end
      ∙ ap (λ x. x ++ (head ++ take room p)) h.file_is
      ∙ append_assoc header (frames ps) (head ++ take room p)
      ∙ ap (λ x. LogFile ps x) (sym front),
  refl,
  record { at_end = (bw_flush-IsAtEnd filled end).at_end },
)
  where
    head : Bytes
    head = frame_head p

    room : ℕ
    room = buffer_size - length head

    filled : Wal
    filled = record w { buf = head ++ take room p }

    end : IsAtEnd filled
    end = record { at_end = h.at_end }

    spilled : bw_write (bw_write w head) p ≡ record (bw_flush filled) { buf = drop room p }
    spilled =
        ap (λ v. bw_write v p) (head_buffered w p h.buf_is)
        ∙ payload_spilled w head p (omega (arith, length-frame_head p))
            (omega (arith, length-frame_head p)) (omega (arith, length-frame_head p))

    front : take buffer_size (frame p) ≡ head ++ take room p
    front =
        unfold frame in
        take-append_more buffer_size room head p (omega (arith, length-frame_head p))

module _ {ℓ} {S : Type ℓ} (json : Json) (fn : S → Bytes → S) where
  -- An append of a document `p` of at most 131,064 bytes that is discarded leaves the first 65,536 bytes of
  -- its record in the file. If `p` is more than 65,536 bytes longer than `q`, the record of `q` that is
  -- appended and flushed behind them is cut off by the next `Replay`.
  pub lost_after_discard :
      (ps : List Bytes) (p q : Bytes) (s : S) (w : Wal)
      → All Fits ps
      → Holds w (frames ps)
      → length p ≤ 131064
      → 65536 + length q < length p
      → ((discard_buffer (append_payload w p)).file ≡ LogFile ps (take buffer_size (frame p)))
        × (w' : Wal) × (replay json fn s
              (flush (append_payload (discard_buffer (append_payload w p)) q))
            ≡ some (deliver json fn s ps, w'))
        × Holds w' (frames ps)
  lost_after_discard ps p q s w h holds bounded larger =
      let w1 = discard_buffer (append_payload w p) in
      let (file1, buf1, end1) = discard_large ps p w holds (omega arith) bounded in
      let (file, _, _) = flush-append_payload w1 q end1 in
      let (w', run, holds') =
        lost_in_file json fn ps 65536 p q s (flush (append_payload w1 q)) h (omega arith)
          (omega arith) larger (file ∙ simp (file1, buf1, append-nil, append_assoc)) in
      (file1, w', run, holds')
