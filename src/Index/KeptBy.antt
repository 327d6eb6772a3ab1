-- ===== src/Index/KeptBy.antt =====
-- The methods of pkg/index/index.go, and the documents that are not in a segment yet.
use Prim.{tt}
use s3search.Base.{
  ℕ, ◌≡◌, ◌⊎◌, refl, sym, ap, ◌∙◌, arith, Bytes, List, [], ◌∷◌, ◌++◌, append-nil, append_assoc, All,
  All-append, true, Bool-cases, inl, inr, ◌&&◌, not,
}
use s3search.Base.{none, some, Outcome, ok, err, panic, stuck, Option-cases}
use s3search.Json.{Json}
use s3search.Wal.Buffer.{Wal}
use s3search.Wal.Log.{invalid_json, append_payload, append, position, flush}
use s3search.Wal.Contents.{Holds, bw_flush-buf}
use s3search.Wal.Frames.{frames, Fits}
use s3search.Index.Memtable.{Settings, AddError, Memtable, memtable_add}
use s3search.Index.Ops.{
  Index, IndexError, Done, FlushConfig, doc_logged, take_doc, then_next, is_flushing,
  trigger_async_flush, maybe_flush, should_flush, add_to_memtable, add_logged, index_add, add_docs,
  end_batch, add_batch, consume_flush_err,
}
use s3search.Index.Kept.{
  Logged, Logged-of_Holds, append_payload-Logged, flush-Holds, position_lem, Compacted, Built-new,
  Built-add, Kept,
}

module _ (set : Settings) (json : Json) where
  trigger_async_flush-Kept :
      (idx : Index set) (ps : List Bytes)
      → Kept set json idx ps
      → idx.flushing ≡ none
      → Kept set json (trigger_async_flush set idx) ps
  unfolding trigger_async_flush
  trigger_async_flush-Kept idx ps k quiet =
      let (held, off) = position_lem idx.wal ps k.in_log in
      let all_live : k.live ≡ ps = ap (λ x. x ++ k.live) (sym none_flying) ∙ k.split in
      record {
        flying = ps;
        live = [];
        split = append-nil ps;
        in_flight = (rw (← all_live) k.built, off);
        built = Built-new set json;
        in_log = Logged-of_Holds (position idx.wal).0 ps held;
        fits = k.fits;
        no_err = k.no_err;
      }
    where
      none_flying : k.flying ≡ []
      none_flying = rw quiet at k.in_flight

  -- A flush starts, where none runs, or nothing changes.
  maybe_flush-cases :
      (cfg : FlushConfig) (now : ℕ) (idx : Index set)
      → (maybe_flush set cfg now idx ≡ idx)
        ⊎ ((idx.flushing ≡ none) × (maybe_flush set cfg now idx ≡ trigger_async_flush set idx))
  unfolding maybe_flush
  maybe_flush-cases cfg now idx =
      elim (Bool-cases (should_flush set cfg now idx && not (is_flushing set idx))) [
        | inl due ↦ inr (quiet due, rw due refl)
        | inr early ↦ inl (rw early refl)
      ]
    where
      quiet :
          (should_flush set cfg now idx && not (is_flushing set idx)) ≡ true → idx.flushing ≡ none
      quiet due = elim (Option-cases idx.flushing) [
        | inl e ↦ e
        | inr (f, e) ↦ absurd (unfold is_flushing in ground (arith, e, due))
      ]

  maybe_flush-Kept :
      (cfg : FlushConfig) (now : ℕ) (idx : Index set) (ps : List Bytes)
      → Kept set json idx ps
      → Kept set json (maybe_flush set cfg now idx) ps
  maybe_flush-Kept cfg now idx ps k = elim (maybe_flush-cases cfg now idx) [
    | inl same ↦ rw same k
    | inr (quiet, started) ↦ rw started (trigger_async_flush-Kept idx ps k quiet)
  ]

  -- The log's buffer stays empty where it was.
  maybe_flush-buf :
      (cfg : FlushConfig) (now : ℕ) (idx : Index set)
      → idx.wal.buf ≡ []
      → (maybe_flush set cfg now idx).wal.buf ≡ []
  maybe_flush-buf cfg now idx h = elim (maybe_flush-cases cfg now idx) [
    | inl same ↦ rw same h
    | inr (quiet, started) ↦
        rw started (unfold trigger_async_flush position in bw_flush-buf idx.wal)
  ]

  -- a document more in the memtable and in the log
  Kept-add :
      (idx : Index set) (mt : Memtable set) (w : Wal) (ps : List Bytes) (raw p : Bytes)
      → Kept set json idx ps
      → json.compact raw ≡ some p
      → Fits p
      → memtable_add set idx.memtable raw ≡ ok mt
      → Logged w (ps ++ p ∷ [])
      → Kept set json (record idx { memtable = mt; wal = w }) (ps ++ p ∷ [])
  Kept-add idx mt w ps raw p k c fits e logged = record {
    flying = k.flying;
    live = k.live ++ p ∷ [];
    split = sym (append_assoc k.flying k.live (p ∷ [])) ∙ ap (λ x. x ++ p ∷ []) k.split;
    in_flight = k.in_flight;
    built = Built-add set json idx.memtable mt k.live raw p k.built c e;
    in_log = logged;
    fits = All-append Fits ps (p ∷ []) k.fits (fits, tt);
    no_err = k.no_err;
  }

  Kept-flush :
      (idx : Index set) (ps : List Bytes)
      → Kept set json idx ps
      → Kept set json (record idx { wal = flush idx.wal }) ps
  Kept-flush idx ps k = record {
    flying = k.flying;
    live = k.live;
    split = k.split;
    in_flight = k.in_flight;
    built = k.built;
    in_log = Logged-of_Holds (flush idx.wal) ps (flush-Holds idx.wal ps k.in_log);
    fits = k.fits;
    no_err = k.no_err;
  }

  pub consume-none {ℓ} :
      {A : Type ℓ} (idx : Index set) (rest : Index set × Outcome IndexError A)
      → idx.flush_err ≡ none
      → consume_flush_err set idx rest ≡ rest
  unfolding consume_flush_err
  consume-none idx rest h = rw h refl

  append-compact :
      (w : Wal) (raw p : Bytes)
      → json.compact raw ≡ some p
      → append json w raw ≡ ok (append_payload w p)
  unfolding append
  append-compact w raw p c = rw (c, append) refl

  -- the end of `Add`
  add_to_memtable-Kept :
      (cfg : FlushConfig) (now : ℕ) (idx : Index set) (w : Wal) (ps : List Bytes) (raw p : Bytes)
      (r : Outcome AddError (Memtable set))
      → Kept set json idx ps
      → json.compact raw ≡ some p
      → Fits p
      → memtable_add set idx.memtable raw ≡ r
      → Holds w (frames (ps ++ p ∷ []))
      → (add_to_memtable set cfg now (record idx { wal = w }) r).1 ≡ ok tt
      → Kept set json (add_to_memtable set cfg now (record idx { wal = w }) r).0 (ps ++ p ∷ [])
        × ((add_to_memtable set cfg now (record idx { wal = w }) r).0.wal.buf ≡ [])
  unfolding add_to_memtable
  add_to_memtable-Kept cfg now idx w ps raw p (ok mt) k c fits e h done = (
    maybe_flush-Kept cfg now (record idx { memtable = mt; wal = w }) (ps ++ p ∷ [])
        (Kept-add idx mt w ps raw p k c fits e (Logged-of_Holds w (ps ++ p ∷ []) h)),
    maybe_flush-buf cfg now (record idx { memtable = mt; wal = w }) h.buf_is,
  )
  add_to_memtable-Kept cfg now idx w ps raw p (err x) k c fits e h done = cc
  add_to_memtable-Kept cfg now idx w ps raw p panic k c fits e h done = cc
  add_to_memtable-Kept cfg now idx w ps raw p stuck k c fits e h done = cc

  -- `Add` of a document that the memtable takes
  pub index_add-Kept :
      (cfg : FlushConfig) (now : ℕ) (idx : Index set) (ps : List Bytes) (raw p : Bytes)
      → Kept set json idx ps
      → json.compact raw ≡ some p
      → Fits p
      → (index_add set cfg json now idx raw).1 ≡ ok tt
      → Kept set json (index_add set cfg json now idx raw).0 (ps ++ p ∷ [])
        × ((index_add set cfg json now idx raw).0.wal.buf ≡ [])
  index_add-Kept cfg now idx ps raw p k c fits done = rw same (
      add_to_memtable-Kept cfg now idx (flush (append_payload idx.wal p)) ps raw p
        (memtable_add set idx.memtable raw) k c fits refl
        (flush-Holds (append_payload idx.wal p) (ps ++ p ∷ [])
          (append_payload-Logged idx.wal ps p k.in_log))
        (rw same at done))
    where
      same :
          index_add set cfg json now idx raw
          ≡ add_to_memtable set cfg now
              (record idx { wal = flush (append_payload idx.wal p) })
              (memtable_add set idx.memtable raw)
      same =
          unfold index_add in
          (consume-none idx (add_logged set cfg json now raw idx (append json idx.wal raw)) k.no_err
            ∙ ap (add_logged set cfg json now raw idx) (append-compact idx.wal raw p c)
            ∙ unfold add_logged in refl)

  -- An invalid document changes nothing.
  pub index_add_refused :
      (cfg : FlushConfig) (now : ℕ) (idx : Index set) (raw : Bytes)
      → idx.flush_err ≡ none
      → json.compact raw ≡ none
      → (index_add set cfg json now idx raw).0 ≡ idx
  unfolding index_add
  index_add_refused cfg now idx raw h c =
      ap (λ x. x.0)
        (consume-none idx (add_logged set cfg json now raw idx (append json idx.wal raw)) h
          ∙ ap (add_logged set cfg json now raw idx) refusal
          ∙ unfold add_logged in refl)
    where
      refusal : append json idx.wal raw ≡ err invalid_json
      refusal = rw (c, append) refl

  -- A batch that goes through has its first document taken.
  then_next-doc_logged :
      (idx : Index set) (w : Wal) (r : Outcome AddError (Memtable set))
      (next : Index set → Index set × Done)
      → (then_next set (doc_logged set idx w r) next).1 ≡ ok tt
      → (mt : Memtable set) × (r ≡ ok mt)
        × (then_next set (doc_logged set idx w r) next
            ≡ next (record idx { wal = w; memtable = mt }))
  unfolding then_next doc_logged
  then_next-doc_logged idx w (ok mt) next done = (mt, refl, refl)
  then_next-doc_logged idx w (err e) next done = cc
  then_next-doc_logged idx w panic next done = cc
  then_next-doc_logged idx w stuck next done = cc

  -- the loop of `AddBatch`, to its end
  add_docs-Kept :
      (raws qs ps : List Bytes) (idx : Index set)
      → Kept set json idx ps
      → Compacted json raws qs
      → All Fits qs
      → (add_docs set json idx raws).1 ≡ ok tt
      → Kept set json (add_docs set json idx raws).0 (ps ++ qs)
  unfolding add_docs
  add_docs-Kept [] [] ps idx k c fits done = rw (append-nil ps) k
  add_docs-Kept [] (q ∷ qs) ps idx k c fits done = absurd c
  add_docs-Kept (raw ∷ raws) [] ps idx k c fits done = absurd c
  add_docs-Kept (raw ∷ raws) (q ∷ qs) ps idx k (c, cs) (fit, fits) done =
      let first : take_doc set idx raw (append json idx.wal raw)
          ≡ doc_logged set idx (append_payload idx.wal q) (memtable_add set idx.memtable raw) =
        ap (take_doc set idx raw) (append-compact idx.wal raw q c) ∙ unfold take_doc in refl in
      let (mt, took, same) =
        then_next-doc_logged idx (append_payload idx.wal q) (memtable_add set idx.memtable raw)
          (λ idx'. add_docs set json idx' raws) (rw first at done) in
      let next : Index set = record idx { wal = append_payload idx.wal q; memtable = mt } in
      rw (first, same, ← append_assoc ps (q ∷ []) qs)
        (add_docs-Kept raws qs (ps ++ q ∷ []) next
          (Kept-add idx mt (append_payload idx.wal q) ps raw q k c fit took
            (append_payload-Logged idx.wal ps q k.in_log))
          cs fits
          (ap (λ r. r.1) (sym same)
            ∙ ap (λ r. (then_next set r (λ idx'. add_docs set json idx' raws)).1) (sym first)
            ∙ done))

  end_batch-Kept :
      (cfg : FlushConfig) (now : ℕ) (r : Index set × Done) (ps : List Bytes)
      → (r.1 ≡ ok tt → Kept set json r.0 ps)
      → (end_batch set cfg json now r).1 ≡ ok tt
      → Kept set json (end_batch set cfg json now r).0 ps
        × ((end_batch set cfg json now r).0.wal.buf ≡ [])
  unfolding end_batch flush
  end_batch-Kept cfg now (idx, ok t) ps k done =
      let flushed = Kept-flush idx ps (k refl) in
      (
        maybe_flush-Kept cfg now (record idx { wal = flush idx.wal }) ps flushed,
        maybe_flush-buf cfg now (record idx { wal = flush idx.wal }) (bw_flush-buf idx.wal),
      )
  end_batch-Kept cfg now (idx, err e) ps k done = cc
  end_batch-Kept cfg now (idx, panic) ps k done = cc
  end_batch-Kept cfg now (idx, stuck) ps k done = cc

  -- `AddBatch` of documents that the memtable takes
  pub add_batch-Kept :
      (cfg : FlushConfig) (now : ℕ) (idx : Index set) (ps raws qs : List Bytes)
      → Kept set json idx ps
      → Compacted json raws qs
      → All Fits qs
      → (add_batch set cfg json now idx raws).1 ≡ ok tt
      → Kept set json (add_batch set cfg json now idx raws).0 (ps ++ qs)
        × ((add_batch set cfg json now idx raws).0.wal.buf ≡ [])
  add_batch-Kept cfg now idx ps raws qs k c fits done = rw same (
      end_batch-Kept cfg now (add_docs set json idx raws) (ps ++ qs)
        (add_docs-Kept raws qs ps idx k c fits) (rw same at done))
    where
      same :
          add_batch set cfg json now idx raws
          ≡ end_batch set cfg json now (add_docs set json idx raws)
      same = unfold add_batch in consume-none idx _ k.no_err
