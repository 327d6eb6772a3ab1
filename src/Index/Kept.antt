-- ===== src/Index/Kept.antt =====
-- What pkg/index/index.go keeps of the documents that are not in a segment yet: the memtable, the snapshot
-- that a flush is at, and the log.
use Prim.{tt}
use s3search.Base.{
  ℕ, ◌+◌, ◌≡◌, refl, sym, ap, ◌∙◌, arith, Bytes, List, [], ◌∷◌, ◌++◌, append-nil, append_assoc,
  length, length-append, All,
}
use s3search.Base.{Option, none, some, Outcome, ok, ◌>>=◌, >>=-eq-ok}
use s3search.Json.{Json}
use s3search.Wal.Buffer.{Wal}
use s3search.Wal.Log.{header, append_payload, position, truncate_prefix, flush}
use s3search.Wal.Contents.{
  contents, IsAtEnd, Holds, frame, append_payload-Appends, bw_flush-file, bw_flush-buf,
  bw_flush-IsAtEnd,
}
use s3search.Wal.Frames.{frames, frames-append, Fits, length-frame}
use s3search.Wal.Prefix.{truncate_prefix_lem, truncate_prefix_header}
use s3search.Wal.Recovery.{length-header}
use s3search.Index.Memtable.{Settings, AddError, Memtable, new_memtable, memtable_add}
use s3search.Index.Ops.{Flight, Index}

-- bytes of a log that are whole frames and will be in the file
pub record Logged (w : Wal) (ps : List Bytes) : Type 0 where
  pub logged : contents w ≡ header ++ frames ps
  pub at_end : w.pos ≡ length w.file

pub Logged-of_Holds : (w : Wal) (ps : List Bytes) → Holds w (frames ps) → Logged w ps
Logged-of_Holds w ps h = record {
  logged = ap (λ b. w.file ++ b) h.buf_is ∙ append-nil w.file ∙ h.file_is;
  at_end = h.at_end;
}

-- a frame more
pub append_payload-Logged :
    (w : Wal) (ps : List Bytes) (p : Bytes)
    → Logged w ps
    → Logged (append_payload w p) (ps ++ p ∷ [])
append_payload-Logged w ps p h =
    let a = append_payload-Appends w p (record { at_end = h.at_end }) in
    record {
      logged =
          a.appended
          ∙ ap (λ x. x ++ frame p) h.logged
          ∙ append_assoc header (frames ps) (frame p)
          ∙ ap (λ x. header ++ x)
              (ap (λ x. frames ps ++ x) (sym (append-nil (frame p)))
                ∙ sym (frames-append ps (p ∷ [])));
      at_end = a.at_end;
    }

pub flush-Holds : (w : Wal) (ps : List Bytes) → Logged w ps → Holds (flush w) (frames ps)
unfolding flush
flush-Holds w ps h =
    let e : IsAtEnd w = record { at_end = h.at_end } in
    record {
      file_is = bw_flush-file w e ∙ h.logged;
      buf_is = bw_flush-buf w;
      at_end = (bw_flush-IsAtEnd w e).at_end;
    }

-- `Position` flushes, and is the length of all frames.
pub position_lem :
    (w : Wal) (ps : List Bytes)
    → Logged w ps
    → Holds (position w).0 (frames ps) × ((position w).1 ≡ 8 + length (frames ps))
unfolding position flush
position_lem w ps h =
    let k = flush-Holds w ps h in
    (
      k,
      ap length k.file_is
          ∙ length-append header (frames ps)
          ∙ ap (λ n. n + length (frames ps)) length-header,
    )

pub Holds-of_Logged : (w : Wal) (ps : List Bytes) → Logged w ps → w.buf ≡ [] → Holds w (frames ps)
Holds-of_Logged w ps h clean = record {
  file_is = sym (append-nil w.file) ∙ ap (λ b. w.file ++ b) (sym clean) ∙ h.logged;
  buf_is = clean;
  at_end = h.at_end;
}

-- A log cut behind its first frames has the others, also where there are no first ones.
pub truncate_prefix-Holds :
    (ps qs : List Bytes) (w : Wal) (off : ℕ)
    → Holds w (frames (ps ++ qs))
    → off ≡ 8 + length (frames ps)
    → Holds (truncate_prefix w off) (frames qs)
truncate_prefix-Holds [] qs w off h o = rw (truncate_prefix_header w off (omega (arith, o))) h
truncate_prefix-Holds (p ∷ ps) qs w off h o =
    truncate_prefix_lem (frames (p ∷ ps)) (frames qs) w off (record { at_end = h.at_end })
      ((Logged-of_Holds w ((p ∷ ps) ++ qs) h).logged
        ∙ ap (λ x. header ++ x) (frames-append (p ∷ ps) qs))
      o (omega (arith, length-append (frame p) (frames ps), length-frame p))

-- each document with its compact form
abbrev pub Compacted : Json → List Bytes → List Bytes → Type 0
Compacted json [] [] = Unit
Compacted json (raw ∷ raws) (p ∷ ps) = (json.compact raw ≡ some p) × Compacted json raws ps
Compacted json [] (p ∷ ps) = ⊥
Compacted json (raw ∷ raws) [] = ⊥

pub Compacted-append :
    (json : Json) (raws ps raws' ps' : List Bytes)
    → Compacted json raws ps
    → Compacted json raws' ps'
    → Compacted json (raws ++ raws') (ps ++ ps')
Compacted-append json [] [] raws' ps' h k = k
Compacted-append json (raw ∷ raws) (p ∷ ps) raws' ps' (e, h) k =
    (e, Compacted-append json raws ps raws' ps' h k)
Compacted-append json [] (p ∷ ps) raws' ps' h k = absurd h
Compacted-append json (raw ∷ raws) [] raws' ps' h k = absurd h

module _ (set : Settings) where
  unfoldable pub add_all : Memtable set → List Bytes → Outcome AddError (Memtable set)
  add_all mt [] = ok mt
  add_all mt (raw ∷ raws) = memtable_add set mt raw >>= λ mt'. add_all mt' raws

  pub add_all-append :
      (mt mt' : Memtable set) (raws more : List Bytes)
      → add_all mt raws ≡ ok mt'
      → add_all mt (raws ++ more) ≡ add_all mt' more
  unfolding add_all
  add_all-append mt mt' [] more e = ap (λ r. r >>= λ m. add_all m more) e
  add_all-append mt mt' (raw ∷ raws) more e =
      let (next, first, rest) = >>=-eq-ok (memtable_add set mt raw) _ e in
      rw first (add_all-append next mt' raws more rest)

  module _ (json : Json) where
    -- a memtable of documents with the compact forms `ps`
    pub record Built (mt : Memtable set) (ps : List Bytes) : Type 0 where
      pub raws : List Bytes
      pub compacted : Compacted json raws ps
      pub added : add_all (new_memtable set) raws ≡ ok mt

    pub Built-new : Built (new_memtable set) []
    unfolding add_all
    Built-new = record { raws = []; compacted = tt; added = refl }

    pub Built-add :
        (mt mt' : Memtable set) (ps : List Bytes) (raw p : Bytes)
        → Built mt ps
        → json.compact raw ≡ some p
        → memtable_add set mt raw ≡ ok mt'
        → Built mt' (ps ++ p ∷ [])
    unfolding add_all
    Built-add mt mt' ps raw p b c e = record {
      raws = b.raws ++ raw ∷ [];
      compacted = Compacted-append json b.raws ps (raw ∷ []) (p ∷ []) b.compacted (c, tt);
      added =
          add_all-append (new_memtable set) mt b.raws (raw ∷ []) b.added
          ∙ ap (λ r. r >>= λ m. add_all m []) e;
    }

    -- the documents of the flush that runs, or none
    abbrev pub InFlight : Option (Flight set) → List Bytes → Type 0
    InFlight none ps = ps ≡ []
    InFlight (some f) ps = Built f.snap ps × (f.off ≡ 8 + length (frames ps))

    -- The documents `ps`, which are not in a segment: those of the snapshot, then those of the memtable,
    -- and all of them in the log.
    pub record Kept (idx : Index set) (ps : List Bytes) : Type 0 where
      pub flying : List Bytes
      pub live : List Bytes
      pub split : flying ++ live ≡ ps
      pub in_flight : InFlight idx.flushing flying
      pub built : Built idx.memtable live
      pub in_log : Logged idx.wal ps
      pub fits : All Fits ps
      pub no_err : idx.flush_err ≡ none
