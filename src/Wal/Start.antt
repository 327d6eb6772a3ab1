-- ===== src/Wal/Start.antt =====
-- How `Open` of pkg/wal/wal.go leaves the log: fresh, as it was, or migrated from the old format.
use s3search.Base.{◌<◌, ◌≤◌, ◌≡◌, refl, sym, ap, ◌∙◌, arith, Bytes, List, [], ◌∷◌, ◌++◌}
use s3search.Base.{
  append-nil, append_assoc, length, length-append, take, le→leb, lt→leb_false, ==_ne, ◌≢◌,
}
use s3search.Base.{==_iff, true, false, Bool-cases, none, some, inl, inr, ok, err}
use s3search.Base.{to_le, from_le, All}
use s3search.Json.{Json}
use s3search.Wal.Buffer.{Wal, file_seek}
use s3search.Wal.Log.{locked, short_header, header, wal_magic, write_header}
use s3search.Wal.Log.{restart, append_payload, append, flush}
use s3search.Wal.Open.{scan_lines, is_record, valid_records, append_all, migrate_v1_to_v2}
use s3search.Wal.Open.{open_existing, open_file, open_wal}
use s3search.Wal.Contents.{contents, frame, IsAtEnd, Holds, bw_flush-file, bw_flush-IsAtEnd}
use s3search.Wal.Contents.{
  append_payload-Appends, restart_lem, header_written, empty_wal, bw_flush-buf,
}
use s3search.Wal.Frames.{frames}
use s3search.Wal.Recovery.{length-header}

magic_of_header : (body : Bytes) → from_le (take 4 (header ++ body)) ≡ wal_magic
unfolding header to_le from_le
magic_of_header body = refl

module _ (json : Json) where
  -- A missing or empty file becomes a log of no records.
  pub open_fresh : (w : Wal) × (open_wal json false [] ≡ ok w) × Holds w []
  unfolding open_wal open_file
  open_fresh =
      let (f, b, e) = header_written in
      (
        write_header empty_wal,
        refl,
        record { file_is = f ∙ sym (append-nil header); buf_is = b; at_end = e.at_end },
      )

  open_v2_existing :
      (w : Wal) (body : Bytes)
      → w.file ≡ header ++ body
      → w.buf ≡ []
      → (w' : Wal) × (open_existing json w ≡ ok w') × Holds w' body
  unfolding open_existing file_seek
  open_v2_existing w body e b = (
    file_seek w (length w.file),
    rw (
      le→leb 8 (length w.file) long,
      (==_iff (from_le (take 4 w.file)) wal_magic).1
          (ap (λ x. from_le (take 4 x)) e ∙ magic_of_header body),
    ),
    record { file_is = e; buf_is = b; at_end = refl },
  )
    where
      long : 8 ≤ length w.file
      long = omega (arith, ap length e, length-append header body, length-header)

  -- A file in the new format is kept as it is, and written at its end.
  pub open_v2 :
      (body : Bytes) → (w : Wal) × (open_wal json false (header ++ body) ≡ ok w) × Holds w body
  unfolding open_wal open_file header to_le
  open_v2 body =
      open_v2_existing (record { file = header ++ body; pos = 0; buf = [] }) body refl refl

  -- the payloads that the documents are compacted to
  pub compacted : List Bytes → List Bytes
  compacted [] = []
  compacted (raw ∷ raws) =
      let rest = compacted raws in elim (json.compact raw) [ none ↦ rest | some p ↦ p ∷ rest ]

  compacted-some :
      (raw : Bytes) (raws : List Bytes) (p : Bytes)
      → json.compact raw ≡ some p
      → compacted (raw ∷ raws) ≡ p ∷ compacted raws
  unfolding compacted
  compacted-some raw raws p c = rw (c, compacted)

  append-some :
      (w : Wal) (raw p : Bytes)
      → json.compact raw ≡ some p
      → append json w raw ≡ ok (append_payload w p)
  unfolding append
  append-some w raw p c = rw (c, append)

  append_all-valid :
      (raws : List Bytes) (w : Wal)
      → IsAtEnd w
      → All (λ raw. json.valid raw ≡ true) raws
      → (w' : Wal) × (append_all json w raws ≡ ok w')
        × IsAtEnd w'
        × (contents w' ≡ contents w ++ frames (compacted raws))
  unfolding append_all
  append_all-valid [] w h v = (w, refl, h, sym (unfold compacted in append-nil (contents w)))
  append_all-valid (raw ∷ raws) w h (v, vs) =
      let (p, c) = json.valid-compacts raw v in
      let added = append_payload-Appends w p h in
      let (w', run, end, bytes) =
        append_all-valid raws (append_payload w p) (record { at_end = added.at_end }) vs in
      (
        w',
        rw (append-some w raw p c) run,
        end,
        rw (compacted-some raw raws p c) (
            bytes
            ∙ ap (λ x. x ++ frames (compacted raws)) added.appended
            ∙ append_assoc (contents w) (frame p) (frames (compacted raws))),
      )

  is_record-valid : (line : Bytes) → is_record json line ≡ true → json.valid line ≡ true
  unfolding is_record
  is_record-valid [] h = cc
  is_record-valid (b ∷ line) h = h

  valid_records-valid :
      (lines : List Bytes) → All (λ raw. json.valid raw ≡ true) (valid_records json lines)
  unfolding valid_records
  valid_records-valid [] = tt
  valid_records-valid (line ∷ lines) = elim (Bool-cases (is_record json line)) [
    | inl good ↦ rw good (is_record-valid line good, valid_records-valid lines)
    | inr bad ↦ rw bad (valid_records-valid lines)
  ]

  migrated :
      (w : Wal) (lines : List Bytes)
      → scan_lines [] w.file ≡ ok lines
      → (w' : Wal) × (migrate_v1_to_v2 json w ≡ ok w')
        × Holds w' (frames (compacted (valid_records json lines)))
  unfolding migrate_v1_to_v2 flush
  migrated w lines scanned =
      let records = valid_records json lines in
      let (f, b, e) = restart_lem w in
      let (w', run, end, bytes) =
        append_all-valid records (restart w) e (valid_records-valid lines) in
      (
        flush w',
        rw (scanned, run),
        record {
          file_is =
              bw_flush-file w' end
              ∙ bytes
              ∙ ap (λ x. x ++ frames (compacted records)) (simp (f, b, append-nil));
          buf_is = bw_flush-buf w';
          at_end = (bw_flush-IsAtEnd w' end).at_end;
        },
      )

  -- A file in the old format of eight bytes or more, of which the scanner can read every line, becomes
  -- a log in the new one: it holds a record for each line that is valid JSON, compacted, in order.
  pub open_v1 :
      (bytes : Bytes) (lines : List Bytes)
      → 8 ≤ length bytes
      → from_le (take 4 bytes) ≢ wal_magic
      → scan_lines [] bytes ≡ ok lines
      → (w : Wal) × (open_wal json false bytes ≡ ok w)
        × Holds w (frames (compacted (valid_records json lines)))
  unfolding open_wal open_file open_existing file_seek
  open_v1 [] lines long other scanned = absurd (omega arith)
  open_v1 (b ∷ bytes) lines long other scanned =
      let (w', run, holds) =
        migrated (record { file = b ∷ bytes; pos = 0; buf = [] }) lines scanned in
      (
        file_seek w' (length w'.file),
        rw (
          le→leb 8 (length (b ∷ bytes)) long,
          ==_ne (from_le (take 4 (b ∷ bytes))) wal_magic other,
          run,
        ),
        record { file_is = holds.file_is; buf_is = holds.buf_is; at_end = refl },
      )

  -- Neither a file of one to seven bytes nor a locked one is opened.
  pub open_refused :
      (bytes : Bytes)
      → 0 < length bytes
      → length bytes < 8
      → (open_wal json false bytes ≡ err short_header) × (open_wal json true bytes ≡ err locked)
  unfolding open_wal open_file open_existing
  open_refused [] some_bytes short = absurd (omega arith)
  open_refused (b ∷ bytes) some_bytes short = (rw (lt→leb_false 8 (length (b ∷ bytes)) short), refl)
