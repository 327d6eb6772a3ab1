-- ===== src/Docstore/Tests.antt =====
-- The theorems on pkg/docstore/docstore.go at two documents, with no compression.
use Prim.{tt}
use s3search.Base.{refl, arith, Bytes, List, [], ◌∷◌, some}
use s3search.Docstore.{Zstd, new_writer, finalize}
use s3search.Docstore.Documents.{Reads, add_all, finalize-add_all}

abbrev plain : Zstd
plain = record { encode_all = λ b. b; decode_all = some; decode-encode = λ b. refl }

-- "{}" and "[1]"
abbrev two_docs : List Bytes
two_docs = (123 ∷ 125 ∷ []) ∷ (91 ∷ 49 ∷ 93 ∷ []) ∷ []

finalize-add_all_example :
    Reads plain
      (finalize plain (add_all plain new_writer two_docs)).0
      (finalize plain (add_all plain new_writer two_docs)).1
      two_docs
finalize-add_all_example =
    finalize-add_all plain two_docs (omega arith, (omega arith, tt)) (omega arith)
