-- ===== src/Graph/Rows.antt =====
-- frontend/realtime/src/components/UtteranceGraph.tsx: the rows that the graph is built from, which are those
-- of the utterances that are complete and have a text.
use mathlib.Core.Path.{subst}
use agent_speak.Base.{
  ℕ, zero, suc, ◌-◌, max, String, Bool, true, false, List, [], ◌∷◌, Option, none, some,
  if◌then◌else◌, str_eq, includes, Distinct, insert, lookup, drop, length, ◌≡◌, refl, ap, sym,
  arith,
}
use agent_speak.Realtime.Types.{RealtimeAction}
use agent_speak.Realtime.Reducer.{TranscriptRow, RealtimeState, initial_state, run}
use agent_speak.Realtime.Invariant.{run-initial-Inv}
use agent_speak.Graph.{Input, bounded_rows, nodes_of}
use agent_speak.Graph.Edges.{ids}

-- `new Map(rows.map(row => [row.utteranceId, row]))`
abbrev pub row_by_id :
    List TranscriptRow → List (String × TranscriptRow) → List (String × TranscriptRow)
row_by_id [] map = map
row_by_id (row ∷ rows) map = row_by_id rows (insert row.utterance_id row map)

abbrev pub with_row : String → Option TranscriptRow → List Input → List Input
with_row k none later = later
with_row k (some row) later =
    if str_eq row.text "" then later else record { utterance_id = k; text = row.text } ∷ later

unfoldable pub graph_rows : List (String × TranscriptRow) → List String → List Input
graph_rows map [] = []
graph_rows map (k ∷ ks) = with_row k (lookup k map) (graph_rows map ks)

-- `graph_rows` of a page.
abbrev pub rows_of : RealtimeState → List Input
rows_of s = graph_rows (row_by_id s.rows []) s.completed_utterance_ids

abbrev input_ids : List Input → List String
input_ids [] = []
input_ids (r ∷ rs) = r.utterance_id ∷ input_ids rs

-- No row but for the utterances that are asked for.
graph_rows-absent :
    (map : List (String × TranscriptRow)) (ks : List String) (k : String)
    → includes ks k ≡ false
    → includes (input_ids (graph_rows map ks)) k ≡ false
unfolding graph_rows
graph_rows-absent map [] k h = refl
graph_rows-absent map (j ∷ ks) k h =
    with_found (lookup j map) (graph_rows-absent map ks k (ground arith))
  where
    with_found :
        (found : Option TranscriptRow)
        → includes (input_ids (graph_rows map ks)) k ≡ false
        → includes (input_ids (with_row j found (graph_rows map ks))) k ≡ false
    with_found none r = r
    with_found (some row) r = ground arith

graph_rows-Distinct :
    (map : List (String × TranscriptRow)) (ks : List String)
    → Distinct ks
    → Distinct (input_ids (graph_rows map ks))
unfolding graph_rows
graph_rows-Distinct map [] d = tt
graph_rows-Distinct map (k ∷ ks) d =
    with_found (lookup k map) (graph_rows-absent map ks k d.0) (graph_rows-Distinct map ks d.1)
  where
    with_found :
        (found : Option TranscriptRow)
        → includes (input_ids (graph_rows map ks)) k ≡ false
        → Distinct (input_ids (graph_rows map ks))
        → Distinct (input_ids (with_row k found (graph_rows map ks)))
    with_found none a r = r
    with_found (some row) a r = by_text (str_eq row.text "")
      where
        by_text :
            (b : Bool)
            → Distinct (
                input_ids (
                  if b
                  then graph_rows map ks
                  else record { utterance_id = k; text = row.text } ∷ graph_rows map ks))
        by_text true = r
        by_text false = (a, r)

drop-Distinct :
    (n : ℕ) (rs : List Input) → Distinct (input_ids rs) → Distinct (input_ids (drop n rs))
drop-Distinct zero rs d = d
drop-Distinct (suc n) [] d = tt
drop-Distinct (suc n) (r ∷ rs) d = drop-Distinct n rs d.1

nodes_of-ids :
    (tokens : String → List (List ℕ)) (rs : List Input) → ids (nodes_of tokens rs) ≡ input_ids rs
unfolding nodes_of
nodes_of-ids tokens [] = refl
nodes_of-ids tokens (r ∷ rs) = ap (◌∷◌ r.utterance_id) (nodes_of-ids tokens rs)

-- Whatever actions a page has received, no two nodes of its graph are of the same utterance, so each
-- edge names its ends without doubt.
pub run-graph_rows :
    (actions : List RealtimeAction) (tokens : String → List (List ℕ)) (max_nodes : ℕ)
    → Distinct
        (ids (nodes_of tokens (bounded_rows max_nodes (rows_of (run initial_state actions)))))
run-graph_rows actions tokens max_nodes =
    let s = run initial_state actions in
    let rows = rows_of s in
    subst Distinct (sym (nodes_of-ids tokens (bounded_rows max_nodes rows))) (
      drop-Distinct (length rows - max 1 max_nodes) rows (
        graph_rows-Distinct (row_by_id s.rows []) s.completed_utterance_ids
          (run-initial-Inv actions).completed_distinct))
