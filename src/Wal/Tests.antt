-- ===== src/Wal/Tests.antt =====
-- The theorems on pkg/wal/wal.go at a log of two records, with a document's bytes for its compact form.
use s3search.Base.{
  ℕ, false, length-take, ◌+◌, ◌≡◌, ◌≢◌, refl, arith, true, Bytes, List, [], ◌∷◌, ◌++◌, append-nil,
  length, take,
}
use s3search.Base.{All, some, ok, replicate, length-replicate, from_le}
use Prim.{tt}
use s3search.Json.{Json}
use s3search.Wal.Buffer.{buffer_size, Wal}
use s3search.Wal.Log.{header, append_payload, flush, discard_buffer, truncate_prefix, wal_magic}
use s3search.Wal.Replay.{replay}
use s3search.Wal.Open.{open_wal, scan_lines, valid_records}
use s3search.Wal.Contents.{
  IsAtEnd, Appends, frame, Holds, flush-append_payload, append_payload-Appends,
}
use s3search.Wal.Frames.{Fits, frames, deliver, length-frame}
use s3search.Wal.Recovery.{LogFile, replay_short}
use s3search.Wal.Torn.{lost_after_torn_header}
use s3search.Wal.Discard.{lost_after_discard}
use s3search.Wal.Prefix.{truncate_prefix_lem}
use s3search.Wal.Start.{open_v1, compacted}

abbrev plain_json : Json
plain_json = record {
  compact = some;
  valid = λ raw. true;
  compact-valid = λ raw p e. refl;
  compact-length = λ raw p e. ground arith;
  valid-compacts = λ raw e. (raw, refl);
}

abbrev collect : List Bytes → Bytes → List Bytes
collect s p = s ++ p ∷ []

-- "{}" and "[]"
abbrev two_records : List Bytes
two_records = (123 ∷ 125 ∷ []) ∷ (91 ∷ 93 ∷ []) ∷ []

two_records-Fits : All Fits two_records
two_records-Fits = (omega arith, (omega arith, tt))

-- ten bytes
abbrev third : Bytes
third = 34 ∷ 1 ∷ 2 ∷ 3 ∷ 4 ∷ 5 ∷ 6 ∷ 7 ∷ 8 ∷ 34 ∷ []

abbrev whole_log : Wal
whole_log = record {
  file = header ++ frames two_records;
  pos = length (header ++ frames two_records);
  buf = [];
}

whole_log-Holds : Holds whole_log (frames two_records)
whole_log-Holds = record { file_is = refl; buf_is = refl; at_end = refl }

abbrev torn_log : ℕ → Wal
torn_log n = record {
  file = LogFile two_records (take n (frame third));
  pos = length (LogFile two_records (take n (frame third)));
  buf = [];
}

flush-append_payload_example :
    ((flush (append_payload whole_log third)).file ≡ (whole_log.file ++ []) ++ frame third)
    × ((flush (append_payload whole_log third)).buf ≡ [])
    × IsAtEnd (flush (append_payload whole_log third))
flush-append_payload_example = flush-append_payload whole_log third (record { at_end = refl })

append_payload-Appends_example : Appends whole_log (frame third) (append_payload whole_log third)
append_payload-Appends_example = append_payload-Appends whole_log third (record { at_end = refl })

truncate_prefix_example :
    Holds
      (truncate_prefix whole_log (8 + length (frame (123 ∷ 125 ∷ []))))
      (frame (91 ∷ 93 ∷ []) ++ [])
truncate_prefix_example =
    truncate_prefix_lem (frame (123 ∷ 125 ∷ [])) (frame (91 ∷ 93 ∷ []) ++ []) whole_log
      (8 + length (frame (123 ∷ 125 ∷ []))) (record { at_end = refl })
      (append-nil (header ++ frames two_records)) refl
      (omega (arith, length-frame (123 ∷ 125 ∷ [])))

-- what `Replay` leaves of a log that is torn in the middle of a record header
torn_six :
    (w' : Wal) × (replay plain_json collect [] (torn_log 6)
      ≡ some (deliver plain_json collect [] two_records, w'))
    × (w'.file ≡ (torn_log 6).file)
    × (w'.buf ≡ [])
    × (w'.pos ≡ length w'.file)
torn_six =
    replay_short plain_json collect two_records (take 6 (frame third)) [] (torn_log 6)
      two_records-Fits refl (omega (arith, length-take 6 (frame third)))

lost_after_torn_header_example :
    (torn_six.0.file ≡ (torn_log 6).file)
    × (w' : Wal) × (replay plain_json collect []
          (flush (append_payload torn_six.0 (123 ∷ 125 ∷ [])))
        ≡ some (deliver plain_json collect [] two_records, w'))
    × Holds w' (frames two_records)
lost_after_torn_header_example =
    lost_after_torn_header plain_json collect two_records 6 third (123 ∷ 125 ∷ []) []
      (deliver plain_json collect [] two_records) (torn_log 6) torn_six.0 two_records-Fits
      (omega arith) (omega arith) (omega arith) (omega arith) refl refl torn_six.1

-- a document of 70,000 bytes
large : Bytes
large = replicate 70000 48

length-large : length large ≡ 70000
unfolding large
length-large = length-replicate {A = ℕ} 70000 48

lost_after_discard_example :
    ((discard_buffer (append_payload whole_log large)).file
      ≡ LogFile two_records (take buffer_size (frame large)))
    × (w' : Wal) × (replay plain_json collect [] (
          flush (append_payload (discard_buffer (append_payload whole_log large)) (123 ∷ 125 ∷ [])))
        ≡ some (deliver plain_json collect [] two_records, w'))
    × Holds w' (frames two_records)
lost_after_discard_example =
    lost_after_discard plain_json collect two_records large (123 ∷ 125 ∷ []) [] whole_log
      two_records-Fits whole_log-Holds (omega (arith, length-large)) (omega (arith, length-large))

-- "{}", a line feed, "no", a line feed, "[]"
abbrev old_file : Bytes
old_file = 123 ∷ 125 ∷ 10 ∷ 110 ∷ 111 ∷ 10 ∷ 91 ∷ 93 ∷ []

old_lines : scan_lines [] old_file ≡ ok ((123 ∷ 125 ∷ []) ∷ (110 ∷ 111 ∷ []) ∷ (91 ∷ 93 ∷ []) ∷ [])
unfolding scan_lines
old_lines = refl

open_v1_example :
    (w : Wal) × (open_wal plain_json false old_file ≡ ok w)
    × Holds w (
        frames (
          compacted plain_json
            (valid_records plain_json ((123 ∷ 125 ∷ []) ∷ (110 ∷ 111 ∷ []) ∷ (91 ∷ 93 ∷ []) ∷ []))))
open_v1_example = open_v1 plain_json old_file _ (omega arith) no_magic old_lines
  where
    no_magic : from_le (take 4 old_file) ≢ wal_magic
    no_magic = unfold from_le in ground arith
