-- ===== src/Wal/Buffer.antt =====
-- The fields `f` and `bw` of the type `WAL` of pkg/wal/wal.go: an os.File with its offset, behind a
-- bufio.Writer of 64 KB. A system call on the file is taken to succeed.
use s3search.Base.{ℕ, ◌+◌, ◌-◌, ◌*◌, Bytes, [], ◌∷◌, ◌++◌, length, take, drop, replicate, leb}
use s3search.Base.{if◌then◌else◌}

pub record Wal : Type 0 where
  -- the bytes of the file, and the offset at which it is written
  pub file : Bytes
  pub pos : ℕ
  -- what the writer holds back
  pub buf : Bytes

-- `bufio.NewWriterSize(f, 64*1024)`
abbrev pub buffer_size : ℕ
buffer_size = 64 * 1024

-- `f.Write(p)`: over what stands at the offset, after zeros if the offset is past the end.
unfoldable pub file_write : Wal → Bytes → Wal
file_write w [] = w
file_write w (b ∷ p) =
    let n = length (b ∷ p) in
    record w {
      file =
          take w.pos w.file
          ++ replicate (w.pos - length w.file) 0
          ++ (b ∷ p)
          ++ drop (w.pos + n) w.file;
      pos = w.pos + n;
    }

-- `f.Truncate(size)`
unfoldable pub file_truncate : Wal → ℕ → Wal
file_truncate w size = record w { file = take size w.file ++ replicate (size - length w.file) 0 }

-- `f.Seek(off, 0)`
unfoldable pub file_seek : Wal → ℕ → Wal
file_seek w off = record w { pos = off }

-- `bw.Flush()`
unfoldable pub bw_flush : Wal → Wal
unfolding file_write
bw_flush w = record (file_write w w.buf) { buf = [] }

-- `bw.Reset(f)`
unfoldable pub bw_reset : Wal → Wal
bw_reset w = record w { buf = [] }

-- `bw.Write(p)` with nothing buffered: what does not fit the buffer goes straight to the file.
unfoldable pub bw_write_empty : Wal → Bytes → Wal
unfolding file_write
bw_write_empty w p = if leb (length p) buffer_size then record w { buf = p } else file_write w p

-- `bw.Write(p)` with a part `held` buffered, which is filled up and flushed if `p` does not fit.
unfoldable pub bw_write_held : Wal → Bytes → Bytes → Wal
unfolding bw_write_empty bw_flush
bw_write_held w held p =
    if leb (length p) (buffer_size - length held)
    then record w { buf = held ++ p }
    else let room = buffer_size - length held in
      bw_write_empty (bw_flush (record w { buf = held ++ take room p })) (drop room p)

unfoldable pub bw_write_by : Wal → Bytes → Bytes → Wal
unfolding bw_write_empty bw_write_held
bw_write_by w [] p = bw_write_empty w p
bw_write_by w (b ∷ held) p = bw_write_held w (b ∷ held) p

-- `bw.Write(p)`
unfoldable pub bw_write : Wal → Bytes → Wal
unfolding bw_write_by
bw_write w p = bw_write_by w w.buf p
