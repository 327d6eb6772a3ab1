-- ===== src/Query/ParserTests.antt =====
-- The theorem on pkg/query/parser.go at a query, and how the parser reads some others.
use s3search.Base.{◌≢◌, Bytes, [], ◌∷◌, stuck, panic}
use s3search.Query.Parser.{parse_query_string}
use s3search.Query.ParserEnds.{parse_query_string_ends}

-- "a OR b"
abbrev a_or_b : Bytes
a_or_b = 97 ∷ 32 ∷ 79 ∷ 82 ∷ 32 ∷ 98 ∷ []

parse_query_string_ends_example :
    (parse_query_string a_or_b ≢ stuck) × (parse_query_string a_or_b ≢ panic)
parse_query_string_ends_example = parse_query_string_ends a_or_b
