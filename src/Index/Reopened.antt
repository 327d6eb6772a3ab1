-- ===== src/Index/Reopened.antt =====
-- `Open` of pkg/index/index.go on the log that a stopped process left.
use Prim.{tt}
use s3search.Base.{
  ℕ, ◌≡◌, ◌≢◌, refl, ap, ◌∙◌, arith, Bytes, List, [], ◌∷◌, ◌++◌, length, length-append, leb, All,
  All-append, true, false, inl, inr, le→leb, lt→leb_false,
}
use s3search.Base.{Option, none, some, Outcome, ok, err, panic, stuck, Option-cases, >>=-eq-ok}
use s3search.Json.{Json}
use s3search.Store.Blob.{StoreError, not_found, precondition_failed, BlobStore}
use s3search.Wal.Buffer.{Wal}
use s3search.Wal.Log.{header, is_empty}
use s3search.Wal.Open.{open_wal}
use s3search.Wal.Start.{open_fresh, open_v2}
use s3search.Wal.Replay.{deliver_one}
use s3search.Wal.Contents.{Holds, frame}
use s3search.Wal.Frames.{frames, Fits, deliver, length-frame}
use s3search.Wal.Recovery.{replay_whole, length-header}
use s3search.Index.Memtable.{Settings, Memtable, new_memtable, memtable_add, add_value}
use s3search.Index.Flush.{wrap, schema_suffix, unless_there, persist_schema}
use s3search.Index.Ops.{Flight, Index, replay_doc, replayed, replay_log, attach, open_index}
use s3search.Index.Kept.{Logged-of_Holds, Compacted, InFlight, Kept, add_all}

-- What `json.Compact` and fastjson's parser have to do with each other: a compact form is compact, and
-- is parsed like the document that it is of.
pub record Agree (set : Settings) (json : Json) : Type 0 where
  pub compact-compact : (raw p : Bytes) → json.compact raw ≡ some p → json.compact p ≡ some p
  pub parses :
      (raw p : Bytes) (v : set.fast_json.Value)
      → json.compact raw ≡ some p
      → set.fast_json.parse_bytes raw ≡ some v
      → (v' : set.fast_json.Value) × (set.fast_json.parse_bytes p ≡ some v')

module _ (set : Settings) (json : Json) (agree : Agree set json) where
  -- a compact form that is valid and parsed
  pub record Readable (p : Bytes) : Type 0 where
    pub valid : json.valid p ≡ true
    pub compact : json.compact p ≡ some p
    pub value : set.fast_json.Value
    pub parsed : set.fast_json.parse_bytes p ≡ some value

  memtable_add-parsed :
      (mt mt' : Memtable set) (raw : Bytes)
      → memtable_add set mt raw ≡ ok mt'
      → (v : set.fast_json.Value) × (set.fast_json.parse_bytes raw ≡ some v)
  unfolding memtable_add
  memtable_add-parsed mt mt' raw e = elim (Option-cases (set.fast_json.parse_bytes raw)) [
    | inl failed ↦ absurd (cc (rw (failed, memtable_add) at e))
    | inr parsed ↦ parsed
  ]

  pub Compacted-Readable :
      (raws ps : List Bytes) (mt mt' : Memtable set)
      → Compacted json raws ps
      → add_all set mt raws ≡ ok mt'
      → All Readable ps
  unfolding add_all
  Compacted-Readable [] [] mt mt' c e = tt
  Compacted-Readable [] (p ∷ ps) mt mt' c e = absurd c
  Compacted-Readable (raw ∷ raws) [] mt mt' c e = absurd c
  Compacted-Readable (raw ∷ raws) (p ∷ ps) mt mt' (c, cs) e =
      let (next, first, rest) = >>=-eq-ok (memtable_add set mt raw) _ e in
      let (v, parsed) = memtable_add-parsed mt next raw first in
      let again = agree.parses raw p v c parsed in
      (
        record {
          valid = json.compact-valid raw p c;
          compact = agree.compact-compact raw p c;
          value = again.0;
          parsed = again.1;
        },
        Compacted-Readable raws ps next mt' cs rest,
      )

  pub Kept-Readable : (idx : Index set) (ps : List Bytes) → Kept set json idx ps → All Readable ps
  Kept-Readable idx ps k =
      rw (← k.split) (All-append Readable k.flying k.live (of_flight idx.flushing k.in_flight) live)
    where
      live : All Readable k.live
      live = Compacted-Readable k.built.raws k.live _ _ k.built.compacted k.built.added

      of_flight : (o : Option (Flight set)) → InFlight set json o k.flying → All Readable k.flying
      of_flight none h = rw h tt
      of_flight (some f) (b, off) = Compacted-Readable b.raws k.flying _ _ b.compacted b.added

  Compacted-self : (ps : List Bytes) → All Readable ps → Compacted json ps ps
  Compacted-self [] h = tt
  Compacted-self (p ∷ ps) (r, h) = (r.compact, Compacted-self ps h)

  -- The replay adds each of them.
  deliver-add_all :
      (ps : List Bytes) (mt : Memtable set)
      → All Readable ps
      → add_all set mt ps ≡ ok (deliver json (replay_doc set json) mt ps)
  unfolding add_all deliver
  deliver-add_all [] mt h = refl
  deliver-add_all (p ∷ ps) mt (r, h) =
      rw (taken, delivered) (deliver-add_all ps (add_value set mt r.value p) h)
    where
      taken : memtable_add set mt p ≡ ok (add_value set mt r.value p)
      taken = unfold memtable_add in rw (r.parsed, memtable_add) refl

      delivered : deliver_one json (replay_doc set json) mt p ≡ add_value set mt r.value p
      delivered = unfold deliver_one replay_doc in rw (r.valid, replay_doc, taken) refl

  -- The log that is there is replayed in full, also where it is empty.
  replay_log_lem :
      (ps : List Bytes) (w : Wal)
      → All Fits ps
      → Holds w (frames ps)
      → (w' : Wal) × (replay_log set json w
          ≡ ok (deliver json (replay_doc set json) (new_memtable set) ps, w'))
        × Holds w' (frames ps)
  unfolding replay_log is_empty
  replay_log_lem [] w fits h = (w, rw empty (unfold deliver in refl), h)
    where
      empty : leb (length w.file) 8 ≡ true
      empty =
          le→leb _ 8 (omega (arith, ap length h.file_is, length-append header [], length-header))
  replay_log_lem (p ∷ ps) w fits h =
      let (w', all, h') =
        replay_whole json (replay_doc set json) (p ∷ ps) (new_memtable set) w fits h in
      (w', rw (some_docs, all) (unfold replayed in refl), h')
    where
      some_docs : leb (length w.file) 8 ≡ false
      some_docs = lt→leb_false _ 8 (
          omega (
            arith,
            ap length h.file_is,
            length-append header (frames (p ∷ ps)),
            length-append (frame p) (frames ps),
            length-frame p,
            length-header,
          ))

  -- The index that `Open` gives on a log of `ps`.
  abbrev pub reopened_as : ℕ → Wal → List Bytes → Index set
  reopened_as now w ps = record {
    memtable = deliver json (replay_doc set json) (new_memtable set) ps;
    wal = w;
    last_flush = now;
    flushing = none;
    flush_err = none;
  }

  reopened_as-Kept :
      (now : ℕ) (w : Wal) (ps : List Bytes)
      → All Fits ps
      → All Readable ps
      → Holds w (frames ps)
      → Kept set json (reopened_as now w ps) ps
  reopened_as-Kept now w ps fits readable h = record {
    flying = [];
    live = ps;
    split = refl;
    in_flight = refl;
    built = record {
      raws = ps;
      compacted = Compacted-self ps readable;
      added = deliver-add_all ps (new_memtable set) readable;
    };
    in_log = Logged-of_Holds w ps h;
    fits = fits;
    no_err = refl;
  }

  -- The schema is put, or is there.
  persist_schema_lem :
      (bs : BlobStore) (name : Bytes) (s : bs.State) (marshalled : Bytes)
      → (s' : bs.State) × (persist_schema bs name s marshalled ≡ ok s')
  unfolding persist_schema
  persist_schema_lem bs name s marshalled = by_get (bs.get s key) refl
    where
      key : Bytes
      key = name ++ schema_suffix

      there :
          bs.get s key ≢ err not_found
          → (s' : bs.State) × (unless_there bs s (bs.put s key marshalled true) ≡ ok s')
      there present =
          let (b, at) = bs.get_present s key present in
          (
            s,
            ap (unless_there bs s) (bs.put_taken s key marshalled b at)
                ∙ unfold unless_there in refl,
          )

      by_get :
          (r : Outcome StoreError Bytes)
          → bs.get s key ≡ r
          → (s' : bs.State) × (unless_there bs s (bs.put s key marshalled true) ≡ ok s')
      by_get (err not_found) e =
          let (s', wrote) = bs.put_new s key marshalled e in
          (s', ap (unless_there bs s) wrote ∙ unfold unless_there in refl)
      by_get (err precondition_failed) e = there (λ p. cc (p, e))
      by_get (ok b) e = there (λ p. cc (p, e))
      by_get panic e = there (λ p. cc (p, e))
      by_get stuck e = there (λ p. cc (p, e))

  -- `Open` of a file whose log opens with the records `ps` gives an index that has all of them.
  open_index_lem :
      (bs : BlobStore) (name : Bytes) (now : ℕ) (file : Bytes) (w : Wal) (ps : List Bytes)
      (s : bs.State) (marshalled : Bytes)
      → All Fits ps
      → open_wal json false file ≡ ok w
      → Holds w (frames ps)
      → (w' : Wal) × (s' : bs.State) × (open_index set json bs name now false file s marshalled
          ≡ ok (reopened_as now w' ps, s'))
        × Holds w' (frames ps)
  unfolding open_index wrap attach
  open_index_lem bs name now file w ps s marshalled fits opened h =
      let (w', all, h') = replay_log_lem ps w fits h in
      let (s', put) = persist_schema_lem bs name s marshalled in
      (w', s', rw (opened, all, put) refl, h')

  -- On the file that a log of `ps` leaves.
  pub open_index-file :
      (bs : BlobStore) (name : Bytes) (now : ℕ) (w : Wal) (ps : List Bytes) (s : bs.State)
      (marshalled : Bytes)
      → All Fits ps
      → All Readable ps
      → Holds w (frames ps)
      → (idx' : Index set) × (s' : bs.State) × (open_index set json bs name now false w.file s
            marshalled
          ≡ ok (idx', s'))
        × Kept set json idx' ps
        × (idx'.wal.buf ≡ [])
        × (idx'.flushing ≡ none)
  open_index-file bs name now w ps s marshalled fits readable h =
      let (w1, opened, h1) = open_v2 json (frames ps) in
      let (w2, s', e, h2) =
        open_index_lem bs name now w.file w1 ps s marshalled fits
          (ap (open_wal json false) h.file_is ∙ opened) h1 in
      (reopened_as now w2 ps, s', e, reopened_as-Kept now w2 ps fits readable h2, h2.buf_is, refl)

  -- On no file, or an empty one.
  pub open_index-fresh :
      (bs : BlobStore) (name : Bytes) (now : ℕ) (s : bs.State) (marshalled : Bytes)
      → (idx' : Index set) × (s' : bs.State) × (open_index set json bs name now false [] s
            marshalled
          ≡ ok (idx', s'))
        × Kept set json idx' []
        × (idx'.wal.buf ≡ [])
  open_index-fresh bs name now s marshalled =
      let (w1, opened, h1) = open_fresh json in
      let (w2, s', e, h2) = open_index_lem bs name now [] w1 [] s marshalled tt opened h1 in
      (reopened_as now w2 [], s', e, reopened_as-Kept now w2 [] tt tt h2, h2.buf_is)
