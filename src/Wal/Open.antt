-- ===== src/Wal/Open.antt =====
-- `Open` and `migrateV1ToV2` of pkg/wal/wal.go.
use s3search.Base.{ℕ, ◌*◌, Bytes, List, [], ◌∷◌, ◌++◌, length, take, leb, ◌==◌, Bool}
use s3search.Base.{false, if◌then◌else◌, Outcome, ok, err, ◌>>=◌, from_le}
use s3search.Json.{Json}
use s3search.Wal.Buffer.{Wal, file_seek}
use s3search.Wal.Log.{Error, locked, short_header, too_long, wal_magic, header_size, write_header}
use s3search.Wal.Log.{restart, append, flush}

-- `bufio.ScanLines` cuts a carriage return off the end of a line.
unfoldable pub drop_cr : Bytes → Bytes
drop_cr [] = []
drop_cr (b ∷ []) = if b == 13 then [] else b ∷ []
drop_cr (b ∷ c ∷ l) = b ∷ drop_cr (c ∷ l)

-- `scanner.Buffer(…, 4*1024*1024)`
abbrev pub max_token_size : ℕ
max_token_size = 4 * 1024 * 1024

-- The lines of `scanner.Scan()`, with `line` the bytes read of the current one: the scanner fails on
-- a line that fills its buffer. A last line without a line feed counts if it is not empty.
unfoldable pub scan_lines : Bytes → Bytes → Outcome Error (List Bytes)
unfolding drop_cr
scan_lines [] [] = ok []
scan_lines (b ∷ line) [] =
    if leb max_token_size (length (b ∷ line)) then err too_long else ok (drop_cr (b ∷ line) ∷ [])
scan_lines line (c ∷ rest) =
    let more = scan_lines [] rest in
    let longer = scan_lines (line ++ c ∷ []) rest in
    if c == 10
    then (if leb max_token_size (length line)
        then err too_long
        else more >>= λ lines. ok (drop_cr line ∷ lines))
    else longer

module _ (json : Json) where
  unfoldable pub is_record : Bytes → Bool
  is_record [] = false
  is_record (b ∷ line) = json.valid (b ∷ line)

  -- the loop that collects `records`
  unfoldable pub valid_records : List Bytes → List Bytes
  unfolding is_record
  valid_records [] = []
  valid_records (line ∷ lines) =
      let rest = valid_records lines in if is_record line then line ∷ rest else rest

  unfoldable pub append_all : Wal → List Bytes → Outcome Error Wal
  append_all w [] = ok w
  append_all w (rec ∷ recs) = append json w rec >>= λ w'. append_all w' recs

  unfoldable pub migrate_v1_to_v2 : Wal → Outcome Error Wal
  unfolding valid_records append_all
  migrate_v1_to_v2 w = scan_lines [] w.file >>= λ lines.
      append_all (restart w) (valid_records lines) >>= λ w'. ok (flush w')

  -- a non-empty file
  unfoldable pub open_existing : Wal → Outcome Error Wal
  open_existing w =
      let at_end = λ (w' : Wal). ok (file_seek w' (length w'.file)) in
      if leb header_size (length w.file)
      then (if from_le (take 4 w.file) == wal_magic
          then at_end w
          else migrate_v1_to_v2 w >>= at_end)
      else err short_header

  unfoldable pub open_file : Bytes → Outcome Error Wal
  unfolding open_existing
  open_file [] = ok (write_header (record { file = []; pos = 0; buf = [] }))
  open_file (b ∷ bytes) = open_existing (record { file = b ∷ bytes; pos = 0; buf = [] })

  -- The file is created empty if it is not there. `held` says that another process has its lock.
  unfoldable pub open_wal : Bool → Bytes → Outcome Error Wal
  unfolding open_file
  open_wal held bytes = if held then err locked else open_file bytes
