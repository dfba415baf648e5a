-- ===== src/Graph/Tests.antt =====
-- Graphs of concrete rows, and the theorems at them.
use agent_speak.Base.{
  ℕ, ◌*◌, ◌≤◌, max, String, List, [], ◌∷◌, codes, length, All, Option, none, some, ◌≡◌, refl,
  Distinct,
}
use agent_speak.Graph.{
  Addend, Input, hash_string, hash_codes, build_text_graph, bounded_rows, nodes_of,
}
use agent_speak.Realtime.Types.{
  EventType, EventData, RealtimeAction, server_event, asr_final, utterance_completed,
}
use agent_speak.Realtime.Reducer.{initial_state, run, realtime_reducer}
use agent_speak.Graph.Rows.{rows_of, run-graph_rows}
use agent_speak.Graph.Bounds.{IsPlaced, build_text_graph-ArePlaced}
use agent_speak.Graph.Edges.{IsLink, ids, build_text_graph-AreLinks}

-- The hash of one letter, and of the empty text.
hashes : (hash_string (codes "a") ≡ 3826002220) × (hash_string [] ≡ 2166136261)
unfolding hash_string hash_codes
hashes = (refl, refl)

-- One token, and a score by the numbers of addends.
abbrev token : String → List (List ℕ)
token text = codes text ∷ []

abbrev score : List Addend → List Addend → ℕ
score a b = length a * length b

abbrev rows : List Input
rows =
    record { utterance_id = "u1"; text = "one" }
    ∷ record { utterance_id = "u2"; text = "two" }
    ∷ record { utterance_id = "u3"; text = "three" }
    ∷ record { utterance_id = "u4"; text = "four" }
    ∷ []

build_text_graph-ArePlaced_example :
    let nodes = (build_text_graph token score 100 3 1 rows).0 in
    (length nodes ≤ max 1 3) × All (IsPlaced (max 1 3)) nodes
build_text_graph-ArePlaced_example = build_text_graph-ArePlaced token score 100 3 1 rows

build_text_graph-AreLinks_example :
    let (nodes, edges) = build_text_graph token score 100 3 1 rows in
    All (IsLink 100 1 (ids nodes)) edges × (length edges ≤ 3 * length nodes)
build_text_graph-AreLinks_example = build_text_graph-AreLinks token score 100 3 1 rows

abbrev data_of : Option String → EventData
data_of text = record {
  silence_ms = none;
  mode = none;
  text = text;
  current_text = none;
  previous_text = none;
  code = none;
}

abbrev server : ℕ → EventType → String → Option String → RealtimeAction
server n t k text = server_event (record {
  sequence = n;
  session_id = "s1";
  utterance_id = some k;
  event_type = t;
  at = "now";
  payload = data_of text;
})

-- Two utterances are recognised and completed, the second one twice.
abbrev talk : List RealtimeAction
talk =
    server 1 asr_final "u1" (some "one")
    ∷ server 2 utterance_completed "u1" none
    ∷ server 3 asr_final "u2" (some "two")
    ∷ server 4 utterance_completed "u2" none
    ∷ server 5 utterance_completed "u2" none
    ∷ []

talk_nodes :
    ids (nodes_of token (bounded_rows 24 (rows_of (run initial_state talk)))) ≡ "u1" ∷ "u2" ∷ []
unfolding run realtime_reducer nodes_of agent_speak.Graph.Rows.graph_rows
talk_nodes = refl

run-graph_rows_example :
    Distinct (ids (nodes_of token (bounded_rows 24 (rows_of (run initial_state talk)))))
run-graph_rows_example = run-graph_rows talk token 24
