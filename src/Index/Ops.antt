-- ===== src/Index/Ops.antt =====
-- pkg/index/index.go: an index with its memtable, its log and the flush that runs beside it. A method holds
-- the lock from start to end, but for the waits: what waits for a flush is taken to start when the flush
-- has ended. The clock is an argument. The log's system calls and a new memtable do not fail here.
use s3search.Base.{
  ℕ, ◌+◌, ◌-◌, ◌*◌, ◌%◌, ◌^◌, Bool, true, false, ◌||◌, ◌&&◌, not, Bytes, List, [], ◌∷◌, leb, ◌==◌,
  if◌then◌else◌,
}
use s3search.Base.{Option, none, some, Outcome, ok, err, panic, stuck, ◌>>=◌}
use s3search.Json.{Json}
use s3search.Store.Blob.{BlobStore}
use s3search.Wal.Buffer.{Wal}
use s3search.Wal.Log as Log
use s3search.Wal.Log.{append, flush, discard_buffer, position, truncate_prefix, close, is_empty}
use s3search.Wal.Open.{open_wal}
use s3search.Wal.Replay.{replay}
use s3search.Index.Memtable.{Settings, AddError, Memtable, new_memtable, memtable_add}
use s3search.Index.Flush.{FlushError, wrap, persist_schema}
use Prim.{tt}

pub record FlushConfig : Type 0 where
  pub max_docs : ℕ
  pub max_bytes : ℕ
  pub max_age : ℕ

-- in nanoseconds
abbrev pub default_flush_config : FlushConfig
default_flush_config = record {
  max_docs = 100000;
  max_bytes = 128 * 1024 * 1024;
  max_age = 60 * 1000000000;
}

pub data IndexError : Type 0 where
  wal_error : Log.Error → IndexError
  memtable_error : AddError → IndexError
  flush_error : FlushError → IndexError

-- a method that gives back an error value only
abbrev pub Done : Type 0
Done = Outcome IndexError (Unit {0})

module _ (set : Settings) where
  -- the snapshot that a flush is at, with `flushOff`
  pub record Flight : Type 0 where
    pub snap : Memtable set
    pub off : ℕ

  pub record Index : Type 0 where
    pub memtable : Memtable set
    pub wal : Wal
    pub last_flush : ℕ
    pub flushing : Option Flight
    pub flush_err : Option FlushError

  unfoldable pub is_flushing : Index → Bool
  is_flushing idx = elim idx.flushing [ none ↦ false | some f ↦ true ]

  -- A result for the caller, or the rest of the method if no error of an earlier flush is there.
  unfoldable pub consume_flush_err {ℓ} :
      {A : Type ℓ} → Index → Index × Outcome IndexError A → Index × Outcome IndexError A
  consume_flush_err idx rest = elim idx.flush_err [
    | none ↦ rest
    | some e ↦ (record idx { flush_err = none }, err (flush_error e))
  ]

  unfoldable pub trigger_async_flush : Index → Index
  unfolding position new_memtable
  trigger_async_flush idx =
      let (w, wal_off) = position idx.wal in
      record idx {
        memtable = new_memtable set;
        wal = w;
        flushing = some (record { snap = idx.memtable; off = wal_off });
      }

  -- What `flushAsync` does under the lock when `runFlush` has ended.
  unfoldable pub flush_async_end {ℓ} :
      {R : Type ℓ} → ℕ → Flight → Outcome FlushError R → Index → Index
  unfolding truncate_prefix
  flush_async_end now f (err e) idx = record idx { flush_err = some e; flushing = none }
  flush_async_end now f (ok r) idx = record idx {
    wal = truncate_prefix idx.wal f.off;
    last_flush = now;
    flushing = none;
  }
  flush_async_end now f panic idx = idx
  flush_async_end now f stuck idx = idx

  -- `FlushNow` behind `runFlush`, with the snapshot swapped out
  unfoldable pub after_run {ℓ} :
      {R : Type ℓ} → ℕ → Index → ℕ → Outcome FlushError R → Index × Outcome IndexError (Option R)
  unfolding truncate_prefix
  after_run now idx wal_off (ok r) =
      (record idx { wal = truncate_prefix idx.wal wal_off; last_flush = now }, ok (some r))
  after_run now idx wal_off (err e) = (idx, err (flush_error e))
  after_run now idx wal_off panic = (idx, panic)
  after_run now idx wal_off stuck = (idx, stuck)

  -- `FlushNow` once the wait is over, where `run` is `runFlush`. No other writer comes between the two
  -- stretches that it holds the lock for.
  unfoldable pub flush_now {ℓ} :
      {R : Type ℓ}
      → ℕ
      → (Memtable set → Outcome FlushError R)
      → Index
      → Index × Outcome IndexError (Option R)
  unfolding consume_flush_err position after_run new_memtable
  flush_now now run idx =
      let (w, wal_off) = position idx.wal in
      let swapped : Index = record idx { memtable = new_memtable set; wal = w } in
      consume_flush_err idx (
        if idx.memtable.doc_count == 0
        then (idx, ok none)
        else after_run now swapped wal_off (run idx.memtable))

  -- the file that is left; an error of the flush is only logged
  unfoldable pub close_index {ℓ} :
      {R : Type ℓ} → ℕ → (Memtable set → Outcome FlushError R) → Index → Bytes
  unfolding flush_now close
  close_index now run idx = close (flush_now now run idx).0.wal

  -- a document of a batch that the log took; an error discards what the log's buffer holds
  unfoldable pub doc_logged : Index → Wal → Outcome AddError (Memtable set) → Index × Done
  unfolding discard_buffer
  doc_logged idx w (ok mt) = (record idx { wal = w; memtable = mt }, ok tt)
  doc_logged idx w (err e) = (record idx { wal = discard_buffer w }, err (memtable_error e))
  doc_logged idx w panic = (record idx { wal = w }, panic)
  doc_logged idx w stuck = (record idx { wal = w }, stuck)

  unfoldable pub take_doc : Index → Bytes → Outcome Log.Error Wal → Index × Done
  unfolding doc_logged memtable_add
  take_doc idx doc (ok w) = doc_logged idx w (memtable_add set idx.memtable doc)
  take_doc idx doc (err e) = (record idx { wal = discard_buffer idx.wal }, err (wal_error e))
  take_doc idx doc panic = (idx, panic)
  take_doc idx doc stuck = (idx, stuck)

  -- the rest of the loop after a document without an error
  unfoldable pub then_next : Index × Done → (Index → Index × Done) → Index × Done
  then_next (idx, ok t) next = next idx
  then_next (idx, err e) next = (idx, err e)
  then_next (idx, panic) next = (idx, panic)
  then_next (idx, stuck) next = (idx, stuck)

  -- the loop of `AddBatch`
  unfoldable pub add_docs : Json → Index → List Bytes → Index × Done
  unfolding take_doc append then_next
  add_docs json idx [] = (idx, ok tt)
  add_docs json idx (doc ∷ docs) =
      then_next (take_doc idx doc (append json idx.wal doc)) (λ idx'. add_docs json idx' docs)

  module _ (cfg : FlushConfig) where
    unfoldable pub should_flush : ℕ → Index → Bool
    should_flush now idx =
        leb cfg.max_docs idx.memtable.doc_count
        || leb cfg.max_bytes idx.memtable.raw_bytes
        || leb cfg.max_age (now - idx.last_flush)

    unfoldable pub would_trigger_after : ℕ → Index → ℕ → Bool
    would_trigger_after now idx n =
        leb cfg.max_docs ((idx.memtable.doc_count + n) % 2 ^ 32)
        || leb cfg.max_bytes idx.memtable.raw_bytes
        || leb cfg.max_age (now - idx.last_flush)

    -- the condition on which `AddBatch` waits for the flush
    unfoldable pub must_wait : ℕ → Index → ℕ → Bool
    unfolding is_flushing would_trigger_after
    must_wait now idx n = is_flushing idx && would_trigger_after now idx n

    unfoldable pub maybe_flush : ℕ → Index → Index
    unfolding should_flush is_flushing trigger_async_flush
    maybe_flush now idx =
        if should_flush now idx && not (is_flushing idx) then trigger_async_flush idx else idx

    unfoldable pub add_to_memtable : ℕ → Index → Outcome AddError (Memtable set) → Index × Done
    unfolding maybe_flush
    add_to_memtable now idx (ok mt) = (maybe_flush now (record idx { memtable = mt }), ok tt)
    add_to_memtable now idx (err e) = (idx, err (memtable_error e))
    add_to_memtable now idx panic = (idx, panic)
    add_to_memtable now idx stuck = (idx, stuck)

    module _ (json : Json) where
      -- a document that the log took, flushed
      unfoldable pub add_logged : ℕ → Bytes → Index → Outcome Log.Error Wal → Index × Done
      unfolding add_to_memtable memtable_add flush
      add_logged now raw_json idx (ok w) =
          add_to_memtable now (record idx { wal = flush w })
            (memtable_add set idx.memtable raw_json)
      add_logged now raw_json idx (err e) = (idx, err (wal_error e))
      add_logged now raw_json idx panic = (idx, panic)
      add_logged now raw_json idx stuck = (idx, stuck)

      unfoldable pub index_add : ℕ → Index → Bytes → Index × Done
      unfolding consume_flush_err add_logged append
      index_add now idx raw_json =
          consume_flush_err idx (add_logged now raw_json idx (append json idx.wal raw_json))

      unfoldable pub end_batch : ℕ → Index × Done → Index × Done
      unfolding maybe_flush flush
      end_batch now (idx, ok t) = (maybe_flush now (record idx { wal = flush idx.wal }), ok t)
      end_batch now (idx, err e) = (idx, err e)
      end_batch now (idx, panic) = (idx, panic)
      end_batch now (idx, stuck) = (idx, stuck)

      -- `AddBatch` once the wait is over
      unfoldable pub add_batch : ℕ → Index → List Bytes → Index × Done
      unfolding consume_flush_err add_docs end_batch
      add_batch now idx docs = consume_flush_err idx (end_batch now (add_docs json idx docs))

  module _ (json : Json) where
    -- an error of the callback is only logged
    unfoldable pub replay_doc : Memtable set → Bytes → Memtable set
    unfolding memtable_add
    replay_doc mt raw_json = elim (memtable_add set mt raw_json) [
      | ok mt' ↦ mt'
      | err e ↦ mt
      | panic ↦ mt
      | stuck ↦ mt
    ]

    unfoldable pub replayed : Option (Memtable set × Wal) → Outcome IndexError (Memtable set × Wal)
    replayed none = stuck
    replayed (some r) = ok r

    unfoldable pub replay_log : Wal → Outcome IndexError (Memtable set × Wal)
    unfolding is_empty replayed replay replay_doc new_memtable
    replay_log w =
        if is_empty w
        then ok (new_memtable set, w)
        else replayed (replay json replay_doc (new_memtable set) w)

    unfoldable pub attach : ℕ → Memtable set × Wal → Index
    attach now (mt, w) = record {
      memtable = mt;
      wal = w;
      last_flush = now;
      flushing = none;
      flush_err = none;
    }

    -- `Open`, with the file of the log and the schema as JSON
    unfoldable pub open_index :
        (bs : BlobStore)
        → Bytes
        → ℕ
        → Bool
        → Bytes
        → bs.State
        → Bytes
        → Outcome IndexError (Index × bs.State)
    unfolding wrap open_wal replay_log attach persist_schema
    open_index bs name now held log_file s marshalled = do
      w ← wrap wal_error (open_wal json held log_file)
      r ← replay_log w
      s' ← wrap flush_error (persist_schema bs name s marshalled)
      ok (attach now r, s')
