-- ===== src/Index/FailedFlush.antt =====
-- What becomes of the documents of a background flush of pkg/index/index.go that fails.
use s3search.Base.{
  ℕ, ◌+◌, ◌≡◌, append-nil, refl, sym, Bytes, List, [], ◌++◌, length, none, some, Outcome, ok, err,
  panic, stuck,
}
use s3search.Json.{Json}
use s3search.Wal.Log.{position}
use s3search.Wal.Contents.{Holds}
use s3search.Wal.Frames.{frames}
use s3search.Index.Memtable.{Settings, Memtable, new_memtable}
use s3search.Index.Flush.{FlushError}
use s3search.Index.Ops.{
  Flight, Index, FlushConfig, flush_async_end, after_run, flush_now, index_add, consume_flush_err,
}
use s3search.Index.Kept.{Logged, position_lem, truncate_prefix-Holds, Built, Kept}
use s3search.Index.KeptByFlush.{swapped, flush_now-after}

module _ (set : Settings) (json : Json) where
  after_run-emptied {ℓ} :
      {R : Type ℓ} (now : ℕ) (idx : Index set) (ps : List Bytes) (off : ℕ)
      (run : Outcome FlushError R) (r : R)
      → Holds idx.wal (frames ps)
      → off ≡ 8 + length (frames ps)
      → (after_run set now idx off run).1 ≡ ok (some r)
      → ((after_run set now idx off run).0.memtable ≡ idx.memtable)
        × Holds (after_run set now idx off run).0.wal (frames [])
  unfolding after_run
  after_run-emptied now idx ps off (ok r') r h o done =
      (refl, truncate_prefix-Holds ps [] idx.wal off (rw (append-nil ps) h) o)
  after_run-emptied now idx ps off (err e) r h o done = cc
  after_run-emptied now idx ps off panic r h o done = cc
  after_run-emptied now idx ps off stuck r h o done = cc

  -- A `FlushNow` that publishes empties the log, whatever the log holds.
  flush_now-emptied {ℓ} :
      {R : Type ℓ} (now : ℕ) (run : Memtable set → Outcome FlushError R) (idx : Index set)
      (ps : List Bytes) (r : R)
      → Logged idx.wal ps
      → idx.flush_err ≡ none
      → (flush_now set now run idx).1 ≡ ok (some r)
      → ((flush_now set now run idx).0.memtable ≡ new_memtable set)
        × Holds (flush_now set now run idx).0.wal (frames [])
  flush_now-emptied now run idx ps r h no_err done =
      let after = flush_now-after set json now run idx r no_err done in
      let (held, off) = position_lem idx.wal ps h in
      rw after (
        after_run-emptied now (swapped set json idx) ps (position idx.wal).1 (run idx.memtable) r
          held off (rw after at done))

  -- A background flush fails, the next `Add` gives its error, and a `FlushNow` after that publishes. Then the
  -- documents of the failed flush, which were acknowledged, are not in the memtable that was published,
  -- and neither the log nor the new memtable holds a document.
  pub lost_after_failed_flush {ℓ} :
      {R : Type ℓ} (cfg : FlushConfig) (failed_at told_at now : ℕ) (idx : Index set)
      (ps : List Bytes) (f : Flight set) (e : FlushError) (raw : Bytes)
      (run : Memtable set → Outcome FlushError R) (r : R)
      → Kept set json idx ps
      → idx.flushing ≡ some f
      → let failed = flush_async_end set {R = R} failed_at f (err e) idx in
        let told = (index_add set cfg json told_at failed raw).0 in
        (flush_now set now run told).1 ≡ ok (some r)
        → (lost : List Bytes) × (live : List Bytes) × (ps ≡ lost ++ live)
          × Built set json f.snap lost
          × Built set json told.memtable live
          × ((flush_now set now run told).0.memtable ≡ new_memtable set)
          × Holds (flush_now set now run told).0.wal (frames [])
  unfolding flush_async_end index_add consume_flush_err
  lost_after_failed_flush cfg failed_at told_at now idx ps f e raw run r k busy done =
      let (fresh, emptied) =
        flush_now-emptied now run (record idx { flushing = none; flush_err = none }) ps r k.in_log
          refl done in
      let (snap, off) : Built set json f.snap k.flying × (f.off ≡ 8 + length (frames k.flying)) =
        rw busy at k.in_flight in
      (k.flying, k.live, sym k.split, snap, k.built, fresh, emptied)
