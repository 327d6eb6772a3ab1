-- ===== src/Wal/Contents.antt =====
-- What the operations of pkg/wal/wal.go do to the bytes of the log, wherever those stand: in the
-- file or still in the writer's buffer.
use s3search.Base.{ℕ, ◌+◌, ◌-◌, ◌≡◌, refl, sym, ap, ◌∙◌, arith, Bytes, [], ◌∷◌, ◌++◌, append-nil}
use s3search.Base.{append_assoc, Bool-cases, inl, inr, length, length-append, take, drop, take-all}
use s3search.Base.{drop-all, replicate, take-append-drop, leb}
use s3search.Wal.Buffer.{Wal, buffer_size, file_write, file_truncate, file_seek, bw_flush, bw_reset}
use s3search.Wal.Buffer.{bw_write_empty, bw_write_held, bw_write_by, bw_write}
use s3search.Wal.Log.{header, write_header, frame_head, append_payload, restart, truncate, flush}
use s3search.Wal.Log.{keep_tail}

-- the file, and what will follow in it
abbrev pub contents : Wal → Bytes
contents w = w.file ++ w.buf

-- the file is written at its end
pub record IsAtEnd (w : Wal) : Type 0 where
  pub at_end : w.pos ≡ length w.file

unfoldable pub frame : Bytes → Bytes
unfolding frame_head
frame payload = frame_head payload ++ payload

-- A step that keeps the offset at the end and has appended `p` to the bytes of the log.
pub record Appends (w : Wal) (p : Bytes) (w' : Wal) : Type 0 where
  pub at_end : w'.pos ≡ length w'.file
  pub appended : w'.file ++ w'.buf ≡ (w.file ++ w.buf) ++ p

file_write-file : (w : Wal) (p : Bytes) → IsAtEnd w → (file_write w p).file ≡ w.file ++ p
unfolding file_write
file_write-file w [] h = sym (append-nil w.file)
file_write-file w (b ∷ p) h = rw (
  take-all w.pos w.file (omega arith),
  drop-all (w.pos + length (b ∷ p)) w.file (omega arith),
  no_gap,
  append-nil,
  append-nil,
)
  where
    no_gap : w.pos - length w.file ≡ 0
    no_gap = omega arith

file_write-IsAtEnd : (w : Wal) (p : Bytes) → IsAtEnd w → IsAtEnd (file_write w p)
file_write-IsAtEnd w [] h = unfold file_write in h
file_write-IsAtEnd w (b ∷ p) h = record {
  at_end =
      rw (file_write-file w (b ∷ p) h)
        (unfold file_write in omega (arith, length-append w.file (b ∷ p)));
}

-- `Flush` moves what is held back to the end of the file.
pub bw_flush-file : (w : Wal) → IsAtEnd w → (bw_flush w).file ≡ contents w
unfolding bw_flush
bw_flush-file w h = file_write-file w w.buf h

pub bw_flush-IsAtEnd : (w : Wal) → IsAtEnd w → IsAtEnd (bw_flush w)
unfolding bw_flush
bw_flush-IsAtEnd w h = record { at_end = (file_write-IsAtEnd w w.buf h).at_end }

file_write-buf : (w : Wal) (p : Bytes) → (file_write w p).buf ≡ w.buf
unfolding file_write
file_write-buf w [] = refl
file_write-buf w (b ∷ p) = refl

bw_write_empty-Appends :
    (w : Wal) (p : Bytes) → IsAtEnd w → w.buf ≡ [] → Appends w p (bw_write_empty w p)
unfolding bw_write_empty
bw_write_empty-Appends w p h e = elim (Bool-cases (leb (length p) buffer_size)) [
  | inl fits ↦ rw fits (record { at_end = h.at_end; appended = simp (e, append-nil) })
  | inr large ↦ rw large (record {
    at_end = (file_write-IsAtEnd w p h).at_end;
    appended = simp (file_write-file w p h, file_write-buf w p, e, append-nil);
  })
]

pub bw_flush-buf : (w : Wal) → (bw_flush w).buf ≡ []
unfolding bw_flush
bw_flush-buf w = refl

bw_write_held-Appends :
    (w : Wal) (held p : Bytes) → IsAtEnd w → w.buf ≡ held → Appends w p (bw_write_held w held p)
unfolding bw_write_held
bw_write_held-Appends w held p h e =
    elim (Bool-cases (leb (length p) (buffer_size - length held))) [
      | inl fits ↦ rw fits (record { at_end = h.at_end; appended = simp (e, append_assoc) })
      | inr large ↦ rw large (record { at_end = rest.at_end; appended = rest.appended ∙ regroup })
    ]
  where
    room : ℕ
    room = buffer_size - length held

    filled : Wal
    filled = record w { buf = held ++ take room p }

    filled_end : IsAtEnd filled
    filled_end = record { at_end = h.at_end }

    rest : Appends (bw_flush filled) (drop room p) (bw_write_empty (bw_flush filled) (drop room p))
    rest =
        bw_write_empty-Appends (bw_flush filled) (drop room p) (bw_flush-IsAtEnd filled filled_end)
          (bw_flush-buf filled)

    regroup :
        ((bw_flush filled).file ++ (bw_flush filled).buf) ++ drop room p ≡ (w.file ++ w.buf) ++ p
    regroup = simp (
      bw_flush-file filled filled_end,
      bw_flush-buf,
      append-nil,
      append_assoc,
      take-append-drop room p,
      e,
    )

bw_write_by-Appends :
    (w : Wal) (held p : Bytes) → IsAtEnd w → w.buf ≡ held → Appends w p (bw_write_by w held p)
unfolding bw_write_by
bw_write_by-Appends w [] p h e = bw_write_empty-Appends w p h e
bw_write_by-Appends w (b ∷ held) p h e = bw_write_held-Appends w (b ∷ held) p h e

-- A buffered write adds its bytes behind all the others, whatever it flushes on the way.
pub bw_write-Appends : (w : Wal) (p : Bytes) → IsAtEnd w → Appends w p (bw_write w p)
unfolding bw_write
bw_write-Appends w p h = bw_write_by-Appends w w.buf p h refl

Appends-trans : {u v w : Wal} (p q : Bytes) → Appends u p v → Appends v q w → Appends u (p ++ q) w
Appends-trans {u} p q a b = record {
  at_end = b.at_end;
  appended = b.appended ∙ ap (λ x. x ++ q) a.appended ∙ append_assoc (contents u) p q;
}

-- From a log that is written at its end, `append_payload` adds one whole frame, length, checksum and
-- payload, behind all the bytes of the log, in the file or in the buffer.
pub append_payload-Appends :
    (w : Wal) (payload : Bytes) → IsAtEnd w → Appends w (frame payload) (append_payload w payload)
unfolding append_payload frame
append_payload-Appends w payload h =
    let first = bw_write-Appends w (frame_head payload) h in
    Appends-trans (frame_head payload) payload first
      (bw_write-Appends _ payload (record { at_end = first.at_end }))

-- After `Append` of a payload and `Flush` the file itself holds the whole frame, behind all that was
-- in the log before, and nothing is held back, if the log was written at its end.
pub flush-append_payload :
    (w : Wal) (payload : Bytes)
    → IsAtEnd w
    → ((flush (append_payload w payload)).file ≡ (w.file ++ w.buf) ++ frame payload)
      × ((flush (append_payload w payload)).buf ≡ [])
      × IsAtEnd (flush (append_payload w payload))
unfolding flush
flush-append_payload w payload h =
    let added = append_payload-Appends w payload h in
    let e : IsAtEnd (append_payload w payload) = record { at_end = added.at_end } in
    (bw_flush-file _ e ∙ added.appended, bw_flush-buf _, bw_flush-IsAtEnd _ e)

abbrev pub empty_wal : Wal
empty_wal = record { file = []; pos = 0; buf = [] }

emptied : (w : Wal) → bw_reset (file_seek (file_truncate w 0) 0) ≡ empty_wal
unfolding file_truncate file_seek bw_reset
emptied w = ap (λ (n : ℕ). record empty_wal { file = replicate n 0 }) no_gap
  where
    no_gap : 0 - length w.file ≡ 0
    no_gap = omega arith

pub header_written :
    ((write_header empty_wal).file ≡ header)
    × ((write_header empty_wal).buf ≡ [])
    × IsAtEnd (write_header empty_wal)
unfolding write_header
header_written =
    let wrote = bw_write-Appends empty_wal header (record { at_end = refl }) in
    let e : IsAtEnd (bw_write empty_wal header) = record { at_end = wrote.at_end } in
    (bw_flush-file _ e ∙ wrote.appended, bw_flush-buf _, bw_flush-IsAtEnd _ e)

-- The header, written to an emptied file.
pub restart_lem :
    (w : Wal) → ((restart w).file ≡ header) × ((restart w).buf ≡ []) × IsAtEnd (restart w)
unfolding restart
restart_lem w = rw (emptied w) header_written

-- A log that starts with the header and holds the bytes `body`, all of them in the file.
pub record Holds (w : Wal) (body : Bytes) : Type 0 where
  pub file_is : w.file ≡ header ++ body
  pub buf_is : w.buf ≡ []
  pub at_end : w.pos ≡ length w.file

pub truncate-Holds : (w : Wal) → Holds (truncate w) []
unfolding truncate
truncate-Holds w =
    let (f, b, e) = restart_lem (bw_flush w) in
    record { file_is = f ∙ sym (append-nil header); buf_is = b; at_end = e.at_end }

pub keep_tail-Holds : (w : Wal) (tail : Bytes) → Holds (keep_tail w tail) tail
unfolding keep_tail file_seek
keep_tail-Holds w tail =
    let (f, b, e) = restart_lem w in
    record {
      file_is = file_write-file (restart w) tail e ∙ ap (λ x. x ++ tail) f;
      buf_is = file_write-buf (restart w) tail ∙ b;
      at_end = refl;
    }
