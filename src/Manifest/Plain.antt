-- ===== src/Manifest/Plain.antt =====
-- A plain encoding of manifests in place of JSON, the store in memory before the first manifest, and a writer
-- who publishes nothing: data for the tests.
use s3search.Base.{ℕ, suc, ◌≡◌, refl, arith, Bool, true, false, Bytes, List, [], ◌∷◌}
use s3search.Base.{
  ◌++◌, append-nil, length, take, drop, take-append, drop-append, ◌==◌, Option, none, some,
}
use s3search.Base.{lookup}
use s3search.Store.Mem.{MemStore, new_mem_store}
use s3search.Store.Laws.{mem_blob_store}
use s3search.Manifest.Versions.{SegmentMeta, Manifest, ManifestJson}
use s3search.Manifest.History.{Refines}
use s3search.Manifest.Atomic.{Interference}

abbrev pub flag : Bool → ℕ
flag true = 1
flag false = 0

abbrev pub put_segments : List SegmentMeta → Bytes
put_segments [] = []
put_segments (s ∷ ss) =
    s.doc_count
    ∷ s.bytes
    ∷ s.min_ts
    ∷ s.max_ts
    ∷ s.created_at
    ∷ s.del_version
    ∷ flag s.deleted
    ∷ length s.id
    ∷ (s.id ++ put_segments ss)

abbrev pub get_segments : ℕ → Bytes → List SegmentMeta
get_segments (suc n) (dc ∷ by ∷ mi ∷ ma ∷ cr ∷ dv ∷ fl ∷ len ∷ rest) =
    record {
      id = take len rest;
      doc_count = dc;
      bytes = by;
      min_ts = mi;
      max_ts = ma;
      created_at = cr;
      del_version = dv;
      deleted = fl == 1;
    }
    ∷ get_segments n (drop len rest)
get_segments n rest = []

unflag : (t : Bool) → (flag t == 1) ≡ t
unflag true = refl
unflag false = refl

get-put_segments : (ss : List SegmentMeta) → get_segments (length ss) (put_segments ss) ≡ ss
get-put_segments [] = refl
get-put_segments (s ∷ ss) =
    rw
      (
        take-append (length s.id) s.id (put_segments ss) refl,
        drop-append (length s.id) s.id (put_segments ss) refl,
        unflag s.deleted,
        get-put_segments ss,
      )
      refl

abbrev pub put_manifest : Manifest → Bytes
put_manifest m =
    m.version
    ∷ m.created_at
    ∷ length m.segments
    ∷ length m.index_name
    ∷ (m.index_name ++ put_segments m.segments)

abbrev pub get_manifest : Bytes → Option Manifest
get_manifest (v ∷ c ∷ n ∷ len ∷ rest) = some (record {
  version = v;
  index_name = take len rest;
  segments = get_segments n (drop len rest);
  created_at = c;
})
get_manifest rest = none

pub get-put_manifest : (m : Manifest) → get_manifest (put_manifest m) ≡ some m
get-put_manifest m =
    rw
      (
        take-append (length m.index_name) m.index_name (put_segments m.segments) refl,
        drop-append (length m.index_name) m.index_name (put_segments m.segments) refl,
        get-put_segments m.segments,
      )
      refl

abbrev pub plain_manifests : ManifestJson
plain_manifests = record {
  marshal = put_manifest;
  unmarshal = get_manifest;
  unmarshal-marshal = get-put_manifest;
}

-- "a"
abbrev pub index : Bytes
index = 97 ∷ []

abbrev pub one_segment : SegmentMeta
one_segment = record {
  id = 49 ∷ [];
  doc_count = 3;
  bytes = 900;
  min_ts = 5;
  max_ts = 6;
  created_at = 7;
  del_version = 0;
  deleted = false;
}

pub new_store-Refines : Refines mem_blob_store plain_manifests index new_mem_store []
unfolding s3search.Store.Mem.get lookup
new_store-Refines = record {
  stored = λ i m at. absurd (cc at);
  absent = λ v above small. refl;
  only = λ k pre present. absurd (present refl);
}

-- Nobody else publishes.
abbrev pub nobody : ℕ → MemStore → MemStore
nobody n s = s

pub nobody-Interference : Interference mem_blob_store plain_manifests index 0 nobody
unfolding Interference
nobody-Interference n s h r = ([], rw (append-nil h) r, omega arith)
