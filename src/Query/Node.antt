-- ===== src/Query/Node.antt =====
-- The type `Node` of pkg/query/dsl.go, one constructor for each type of node that exec.go tells apart. A
-- keyword is evaluated as a term is, and a range without its bounds.
use s3search.Base.{Bytes, List}

mutual
  pub data Node : Type 0 where
    match : Bytes → Bytes → Node
    term : Bytes → Bytes → Node
    prefix : Bytes → Bytes → Node
    phrase : Bytes → List Bytes → Node
    range : Node
    bool : Nodes → Nodes → Nodes → Nodes → Node
    unknown : Bytes → Node

  -- `[]*Node`
  pub data Nodes : Type 0 where
    nil : Nodes
    cons : Node → Nodes → Nodes
