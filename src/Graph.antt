-- ===== src/Graph.antt =====
-- frontend/realtime/src/graph/textGraph.ts: the graph of the last utterances. The tokens of a text, which
-- are cut by Unicode's tables, and the cosine of two vectors, a floating-point number, are arguments:
-- `tokens` gives the tokens as lists of code points, and `score` compares as the cosine does.
pub mod Bounds
pub mod Edges
pub mod Rows
mod Tests
use Prim.Native.Nat.{bit_xor, bit_and}
use agent_speak.Base.{
  ℕ, zero, suc, ◌+◌, ◌-◌, ◌*◌, ◌%◌, max, String, Bool, true, false, List, [], ◌∷◌, ◌++◌, map,
  if◌then◌else◌, ltb, leb, ◌==◌, codes, length, take, drop, keep,
}

-- The step of a hash, on 32 bits.
abbrev pub mix : ℕ → ℕ → ℕ
mix hash character = bit_xor hash character % 4294967296 * 16777619 % 4294967296

unfoldable pub hash_codes : ℕ → List ℕ → ℕ
hash_codes hash [] = hash
hash_codes hash (c ∷ cs) = hash_codes (mix hash c) cs

unfoldable pub hash_string : List ℕ → ℕ
unfolding hash_codes
hash_string value = hash_codes 2166136261 value

unfoldable pub stable_coordinates : String → ℕ × ℕ
unfolding hash_string
stable_coordinates id = (
  90 + hash_string (codes "x:" ++ codes id) % 820,
  105 + hash_string (codes "y:" ++ codes id) % 220,
)

-- What a feature adds to the vector: its weight in hundredths, at an index, with a sign.
pub record Addend : Type 0 where
  pub index : ℕ
  pub is_positive : Bool
  pub weight : ℕ

unfoldable pub addend : List ℕ → ℕ → Addend
unfolding hash_string
addend value weight =
    let hash = hash_string value in
    record { index = hash % 96; is_positive = bit_and hash 256 == 0; weight = weight }

abbrev pub bigrams : List (List ℕ) → List (List ℕ × List ℕ)
bigrams [] = []
bigrams (a ∷ []) = []
bigrams (a ∷ b ∷ rest) = (a, b) ∷ bigrams (b ∷ rest)

abbrev pub unigram_value : List ℕ → List ℕ
unigram_value t = codes "u:" ++ t

abbrev pub bigram_value : List ℕ × List ℕ → List ℕ
bigram_value p = codes "b:" ++ p.0 ++ codes "|" ++ p.1

-- The additions of `embedText`, in order.
unfoldable pub addends : List (List ℕ) → List Addend
unfolding addend
addends tokens =
    map (λ t. addend (unigram_value t) 100) tokens
    ++ map (λ p. addend (bigram_value p) 135) (bigrams tokens)

pub record Input : Type 0 where
  pub utterance_id : String
  pub text : String

pub record Node : Type 0 where
  pub utterance_id : String
  pub text : String
  pub place : ℕ × ℕ
  pub recency : ℕ
  pub vector : List Addend

pub data EdgeKind : Type 0 where
  timeline similarity : EdgeKind

pub record Edge : Type 0 where
  pub source : String
  pub target : String
  pub kind : EdgeKind
  pub score : ℕ

-- The last `max(1, maxNodes)` rows.
abbrev pub bounded_rows : ℕ → List Input → List Input
bounded_rows max_nodes rows = drop (length rows - max 1 max_nodes) rows

-- `recency` counts the rows that follow.
unfoldable pub nodes_of : (String → List (List ℕ)) → List Input → List Node
unfolding stable_coordinates addends
nodes_of tokens [] = []
nodes_of tokens (row ∷ rows) =
    record {
      utterance_id = row.utterance_id;
      text = row.text;
      place = stable_coordinates row.utterance_id;
      recency = length rows;
      vector = addends (tokens row.text);
    }
    ∷ nodes_of tokens rows

-- `full` is the score 1.
unfoldable pub timeline_edges : ℕ → List Node → List Edge
timeline_edges full [] = []
timeline_edges full (a ∷ []) = []
timeline_edges full (a ∷ b ∷ nodes) =
    record { source = a.utterance_id; target = b.utterance_id; kind = timeline; score = full }
    ∷ timeline_edges full (b ∷ nodes)

pub record Candidate : Type 0 where
  pub node : Node
  pub score : ℕ

-- The nodes before the target but for the last, whose index is the target's less 1.
abbrev pub but_last : List Node → List Node
but_last [] = []
but_last (a ∷ []) = []
but_last (a ∷ b ∷ nodes) = a ∷ but_last (b ∷ nodes)

abbrev pub insert_candidate : Candidate → List Candidate → List Candidate
insert_candidate c [] = c ∷ []
insert_candidate c (d ∷ ds) = if ltb c.score d.score then d ∷ insert_candidate c ds else c ∷ d ∷ ds

-- Sorted by falling score; those of equal score keep their order.
unfoldable pub sort_candidates : List Candidate → List Candidate
sort_candidates [] = []
sort_candidates (c ∷ cs) = insert_candidate c (sort_candidates cs)

unfoldable pub candidates : (List Addend → List Addend → ℕ) → ℕ → List Node → Node → List Candidate
unfolding sort_candidates
candidates score threshold earlier target = take 2 (
    sort_candidates (
      keep (λ c. leb threshold c.score)
        (map (λ n. record { node = n; score = score n.vector target.vector }) (but_last earlier))))

abbrev pub edges_to : Node → List Candidate → List Edge
edges_to target [] = []
edges_to target (c ∷ cs) =
    record {
      source = c.node.utterance_id;
      target = target.utterance_id;
      kind = similarity;
      score = c.score;
    }
    ∷ edges_to target cs

-- The loop over the targets, with the nodes before them.
unfoldable pub similarity_edges :
    (List Addend → List Addend → ℕ) → ℕ → List Node → List Node → List Edge
unfolding candidates
similarity_edges score threshold earlier [] = []
similarity_edges score threshold earlier (target ∷ targets) =
    edges_to target (candidates score threshold earlier target)
    ++ similarity_edges score threshold (earlier ++ target ∷ []) targets

unfoldable pub build_text_graph :
    (String → List (List ℕ))
    → (List Addend → List Addend → ℕ)
    → (full max_nodes threshold : ℕ) → List Input
    → List Node × List Edge
unfolding nodes_of timeline_edges similarity_edges
build_text_graph tokens score full max_nodes threshold rows =
    let nodes = nodes_of tokens (bounded_rows max_nodes rows) in
    (nodes, timeline_edges full nodes ++ similarity_edges score threshold [] nodes)
