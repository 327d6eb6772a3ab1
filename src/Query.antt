-- ===== src/Query.antt =====
-- pkg/query: `Node` is the query tree of dsl.go, `Leaves` and `Exec` are the evaluation of exec.go to a set
-- of documents, `Matches` says which documents a query is to match, and `Answers` that it is those.
pub mod Bitmap
pub mod Node
pub mod Leaves
pub mod Exec
pub mod Lexer
pub mod Parser
pub mod Plain
pub mod Matches
mod LeafAnswers
mod Answers
pub mod Deleted
mod Adjacent
mod ParserLengths
mod ParserEnds
mod Tests
mod ParserTests
