-- ===== src/Graph/Bounds.antt =====
-- frontend/realtime/src/graph/textGraph.ts: the bounds of the nodes.
use agent_speak.Base.{
  ℕ, suc, ◌-◌, ◌≤◌, ◌<◌, max, String, List, [], ◌∷◌, map, length, length-drop, All, All-append, ◌≡◌,
  refl, ap, arith,
}
use agent_speak.Graph.{
  stable_coordinates, Addend, addend, addends, bigrams, Input, Node, bounded_rows, nodes_of,
  build_text_graph, unigram_value, bigram_value,
}

-- A node stands on the canvas, its vector has the dimension 96, and its recency is below the limit.
pub record IsPlaced (limit : ℕ) (n : Node) : Type 0 where
  pub across : (90 ≤ n.place.0) × (n.place.0 ≤ 909)
  pub down : (105 ≤ n.place.1) × (n.place.1 ≤ 324)
  pub dimension : All (λ a. a.index < 96) n.vector
  pub recent : n.recency < limit

map-addend :
    {A : Type 0} (f : A → List ℕ) (weight : ℕ) (xs : List A)
    → All (λ a. a.index < 96) (map (λ x. addend (f x) weight) xs)
unfolding addend
map-addend f weight [] = tt
map-addend f weight (x ∷ xs) = (omega arith, map-addend f weight xs)

addends-indices : (tokens : List (List ℕ)) → All (λ a. a.index < 96) (addends tokens)
unfolding addends
addends-indices tokens =
    All-append (λ a. a.index < 96) (map (λ t. addend (unigram_value t) 100) tokens)
      (map (λ p. addend (bigram_value p) 135) (bigrams tokens))
      (map-addend unigram_value 100 tokens) (map-addend bigram_value 135 (bigrams tokens))

nodes_of-ArePlaced :
    (tokens : String → List (List ℕ)) (rows : List Input) (limit : ℕ)
    → length rows ≤ limit
    → All (IsPlaced limit) (nodes_of tokens rows)
unfolding nodes_of stable_coordinates
nodes_of-ArePlaced tokens [] limit h = tt
nodes_of-ArePlaced tokens (row ∷ rows) limit h = (
  record {
    across = (omega arith, omega arith);
    down = (omega arith, omega arith);
    dimension = addends-indices (tokens row.text);
    recent = omega arith;
  },
  nodes_of-ArePlaced tokens rows limit (omega arith),
)

length-nodes_of :
    (tokens : String → List (List ℕ)) (rows : List Input)
    → length (nodes_of tokens rows) ≡ length rows
unfolding nodes_of
length-nodes_of tokens [] = refl
length-nodes_of tokens (row ∷ rows) = ap suc (length-nodes_of tokens rows)

bounded_rows-le : (m : ℕ) (rows : List Input) → length (bounded_rows m rows) ≤ max 1 m
bounded_rows-le m rows = ground (arith, length-drop (length rows - max 1 m) rows)

-- A graph has at most as many nodes as were asked for, or one; each stands between 90 and 909 across and
-- between 105 and 324 down, has a vector of dimension 96, and a recency below the limit of nodes.
pub build_text_graph-ArePlaced :
    (tokens : String → List (List ℕ)) (score : List Addend → List Addend → ℕ)
    (full max_nodes threshold : ℕ) (rows : List Input)
    → let nodes = (build_text_graph tokens score full max_nodes threshold rows).0 in
      (length nodes ≤ max 1 max_nodes) × All (IsPlaced (max 1 max_nodes)) nodes
unfolding build_text_graph
build_text_graph-ArePlaced tokens score full max_nodes threshold rows =
    let shown = bounded_rows max_nodes rows in
    let h = bounded_rows-le max_nodes rows in
    (
      ground (arith, length-nodes_of tokens shown),
      nodes_of-ArePlaced tokens shown (max 1 max_nodes) h,
    )
