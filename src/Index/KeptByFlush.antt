-- ===== src/Index/KeptByFlush.antt =====
-- The end of a flush of pkg/index/index.go, and the documents that are not in a segment yet.
use Prim.{tt}
use s3search.Base.{
  ℕ, ◌+◌, ◌≡◌, refl, sym, ap, ◌∙◌, Bytes, List, [], ◌∷◌, ◌++◌, append-nil, length, All, Bool-cases,
  inl, inr, ◌==◌, if◌then◌else◌,
}
use s3search.Base.{none, some, Outcome, ok, err, panic, stuck}
use s3search.Json.{Json}
use s3search.Wal.Log.{position, truncate_prefix}
use s3search.Wal.Contents.{Holds}
use s3search.Wal.Frames.{frames, Fits}
use s3search.Index.Memtable.{Settings, Memtable, new_memtable}
use s3search.Index.Flush.{FlushError}
use s3search.Index.Ops.{Flight, Index, flush_async_end, after_run, flush_now}
use s3search.Index.Kept.{
  Logged-of_Holds, Holds-of_Logged, position_lem, truncate_prefix-Holds, Built, Built-new, Kept,
}
use s3search.Index.KeptBy.{consume-none}

All-rest : (ps qs : List Bytes) → All Fits (ps ++ qs) → All Fits qs
All-rest [] qs h = h
All-rest (p ∷ ps) qs h = All-rest ps qs h.1

module _ (set : Settings) (json : Json) where
  -- Documents that were taken out of the log as a snapshot, and the others.
  pub record Flushed (snap : Memtable set) (ps : List Bytes) (idx : Index set) : Type 0 where
    pub done : List Bytes
    pub rest : List Bytes
    pub split : ps ≡ done ++ rest
    pub snap_built : Built set json snap done
    pub kept : Kept set json idx rest
    pub clean : idx.wal.buf ≡ []

  pub flush_async_end-Flushed {ℓ} :
      {R : Type ℓ} (now : ℕ) (idx : Index set) (ps : List Bytes) (f : Flight set) (r : R)
      → Kept set json idx ps
      → idx.wal.buf ≡ []
      → idx.flushing ≡ some f
      → Flushed f.snap ps (flush_async_end set now f (ok r) idx)
  unfolding flush_async_end
  flush_async_end-Flushed now idx ps f r k clean busy =
      let (snap, off) : Built set json f.snap k.flying × (f.off ≡ 8 + length (frames k.flying)) =
        rw busy at k.in_flight in
      let cut : Holds (truncate_prefix idx.wal f.off) (frames k.live) =
        truncate_prefix-Holds k.flying k.live idx.wal f.off
          (rw (k.split) (Holds-of_Logged idx.wal ps k.in_log clean)) off in
      record {
        done = k.flying;
        rest = k.live;
        split = sym k.split;
        snap_built = snap;
        kept = record {
          flying = [];
          live = k.live;
          split = refl;
          in_flight = refl;
          built = k.built;
          in_log = Logged-of_Holds (truncate_prefix idx.wal f.off) k.live cut;
          fits = All-rest k.flying k.live (rw (k.split) k.fits);
          no_err = k.no_err;
        };
        clean = cut.buf_is;
      }

  after_run-Flushed {ℓ} :
      {R : Type ℓ} (now : ℕ) (snap : Memtable set) (idx : Index set) (ps : List Bytes) (off : ℕ)
      (run : Outcome FlushError R) (r : R)
      → Built set json snap ps
      → Holds idx.wal (frames ps)
      → off ≡ 8 + length (frames ps)
      → idx.memtable ≡ new_memtable set
      → idx.flushing ≡ none
      → idx.flush_err ≡ none
      → (after_run set now idx off run).1 ≡ ok (some r)
      → Flushed snap ps (after_run set now idx off run).0
  unfolding after_run
  after_run-Flushed now snap idx ps off (ok r') r b h o fresh quiet no_err done =
      let cut : Holds (truncate_prefix idx.wal off) (frames []) =
        truncate_prefix-Holds ps [] idx.wal off (rw (append-nil ps) h) o in
      record {
        done = ps;
        rest = [];
        split = sym (append-nil ps);
        snap_built = b;
        kept = record {
          flying = [];
          live = [];
          split = refl;
          in_flight = rw quiet refl;
          built = rw fresh (Built-new set json);
          in_log = Logged-of_Holds (truncate_prefix idx.wal off) [] cut;
          fits = tt;
          no_err = no_err;
        };
        clean = cut.buf_is;
      }
  after_run-Flushed now snap idx ps off (err e) r b h o fresh quiet no_err done = cc
  after_run-Flushed now snap idx ps off panic r b h o fresh quiet no_err done = cc
  after_run-Flushed now snap idx ps off stuck r b h o fresh quiet no_err done = cc

  pub all_live :
      (idx : Index set) (ps : List Bytes)
      → Kept set json idx ps
      → idx.flushing ≡ none
      → Built set json idx.memtable ps
  all_live idx ps k quiet =
      let none_flying : k.flying ≡ [] = rw quiet at k.in_flight in
      rw (← k.split, none_flying) k.built

  -- the index while `FlushNow` runs its flush
  abbrev pub swapped : Index set → Index set
  swapped idx = record idx { memtable = new_memtable set; wal = (position idx.wal).0 }

  -- A `FlushNow` that gives a manifest has run a flush.
  pub flush_now-after {ℓ} :
      {R : Type ℓ} (now : ℕ) (run : Memtable set → Outcome FlushError R) (idx : Index set) (r : R)
      → idx.flush_err ≡ none
      → (flush_now set now run idx).1 ≡ ok (some r)
      → flush_now set now run idx
        ≡ after_run set now (swapped idx) (position idx.wal).1 (run idx.memtable)
  flush_now-after now run idx r no_err done = elim (Bool-cases (idx.memtable.doc_count == 0)) [
    | inl empty ↦
        let nothing : flush_now set now run idx ≡ (idx, ok none) = same ∙ rw empty refl in
        absurd (cc (ap (λ x. x.1) nothing, done))
    | inr some_docs ↦ same ∙ rw some_docs refl
  ]
    where
      same : flush_now set now run idx ≡ (
          if idx.memtable.doc_count == 0
          then (idx, ok none)
          else after_run set now (swapped idx) (position idx.wal).1 (run idx.memtable))
      same = unfold flush_now in consume-none set json idx _ no_err

  -- A `FlushNow` that has published.
  pub flush_now-Flushed {ℓ} :
      {R : Type ℓ} (now : ℕ) (run : Memtable set → Outcome FlushError R) (idx : Index set)
      (ps : List Bytes) (r : R)
      → Kept set json idx ps
      → idx.flushing ≡ none
      → (flush_now set now run idx).1 ≡ ok (some r)
      → Flushed idx.memtable ps (flush_now set now run idx).0
  flush_now-Flushed now run idx ps r k quiet done =
      let after = flush_now-after now run idx r k.no_err done in
      let (held, off) = position_lem idx.wal ps k.in_log in
      rw after (
        after_run-Flushed now idx.memtable (swapped idx) ps (position idx.wal).1 (run idx.memtable)
          r (all_live idx ps k quiet) held off refl quiet k.no_err (rw after at done))
