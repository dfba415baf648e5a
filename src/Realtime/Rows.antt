-- ===== src/Realtime/Rows.antt =====
-- frontend/realtime/src/state/reducer.ts: what the reducer does to the transcript rows, seen as a
-- map from utterances to rows and as a sequence.
use mathlib.Core.Option
use agent_speak.Base.{
  ℕ, zero, suc, ◌≡◌, refl, ap, ◌∙◌, inl, inr, String, false, List, [], ◌∷◌, ◌++◌, Option, none,
  some, arith, str_eq, eq_iff, ◌==◌, if◌then◌else◌, or_else, get_elem?, includes, Distinct,
  Distinct-append_one, Option-cases,
}
use agent_speak.Realtime.Types.{RealtimeEvent, EventData, model_switched}
use agent_speak.Realtime.Reducer.{
  TranscriptRow, RowStatus, RealtimeState, truthy, find_index, set_row, update_at, upsert_id,
  upsert, lock_previous, revise_at, revise_found, revise, completed_rows, realtime_reducer,
}

abbrev pub ids : List TranscriptRow → List String
ids [] = []
ids (row ∷ rows) = row.utterance_id ∷ ids rows

-- The row of an utterance.
abbrev pub row_of : String → List TranscriptRow → Option TranscriptRow
row_of k [] = none
row_of k (row ∷ rows) = if str_eq row.utterance_id k then some row else row_of k rows

pub ids-update_at :
    (i : ℕ) (f : TranscriptRow → TranscriptRow) (rows : List TranscriptRow)
    → ((row : TranscriptRow) → (f row).utterance_id ≡ row.utterance_id)
    → ids (update_at i f rows) ≡ ids rows
unfolding update_at
ids-update_at i f [] h = refl
ids-update_at zero f (row ∷ rows) h = ap (λ k. k ∷ ids rows) (h row)
ids-update_at (suc i) f (row ∷ rows) h = ap (◌∷◌ row.utterance_id) (ids-update_at i f rows h)

pub ids-append : (xs ys : List TranscriptRow) → ids (xs ++ ys) ≡ ids xs ++ ids ys
ids-append [] ys = refl
ids-append (x ∷ xs) ys = ap (◌∷◌ x.utterance_id) (ids-append xs ys)

-- A row is not found exactly when no row has the id.
pub find_index-none :
    (k : String) (rows : List TranscriptRow)
    → find_index k rows ≡ none
    → includes (ids rows) k ≡ false
unfolding find_index
find_index-none k [] h = refl
find_index-none k (row ∷ rows) h = ground (arith, find_index-none k rows)

pub row_of-append :
    (k : String) (rows : List TranscriptRow) (row : TranscriptRow)
    → find_index row.utterance_id rows ≡ none
    → row_of k (rows ++ row ∷ []) ≡ (if str_eq row.utterance_id k then some row else row_of k rows)
unfolding find_index
row_of-append k [] row h = refl
row_of-append k (r ∷ rows) row h = ground (
  arith,
  row_of-append k rows row,
  eq_iff r.utterance_id k,
  eq_iff row.utterance_id k,
  eq_iff r.utterance_id row.utterance_id,
)

pub row_of-update_at :
    (k j text : String) (status : RowStatus) (rows : List TranscriptRow) (i : ℕ)
    → find_index k rows ≡ some i
    → row_of j (update_at i (set_row text status) rows) ≡ (
        if str_eq k j
        then some (record { utterance_id = k; text = text; status = status })
        else row_of j rows)
unfolding find_index update_at
row_of-update_at k j text status [] i h = cc
row_of-update_at k j text status (row ∷ rows) zero h =
    ground (arith, eq_iff row.utterance_id k, eq_iff row.utterance_id j, eq_iff k j)
row_of-update_at k j text status (row ∷ rows) (suc i) h = ground (
  arith,
  row_of-update_at k j text status rows i,
  eq_iff row.utterance_id k,
  eq_iff row.utterance_id j,
  eq_iff k j,
)

-- A partial or final result of an utterance sets the row of that utterance to its text and status,
-- adding the row if there is none, and leaves the row of every other utterance as it was.
row_of-upsert :
    (rows : List TranscriptRow) (e : RealtimeEvent) (status : RowStatus) (k j : String)
    → truthy e.utterance_id ≡ some k
    → row_of j (upsert rows e status) ≡ (
        if str_eq k j
        then some (record { utterance_id = k; text = or_else e.payload.text ""; status = status })
        else row_of j rows)
unfolding upsert
row_of-upsert rows e status k j h = elim (Option-cases (find_index k rows)) [
  | inl missing ↦ rw (h, upsert_id, missing) (row_of-append j rows _ missing)
  | inr (i, found) ↦ rw (h, upsert_id, found) (row_of-update_at k j _ status rows i found)
]

pub ids-upsert-Distinct :
    (rows : List TranscriptRow) (e : RealtimeEvent) (status : RowStatus)
    → Distinct (ids rows)
    → Distinct (ids (upsert rows e status))
unfolding upsert
ids-upsert-Distinct rows e status d = elim (Option-cases (truthy e.utterance_id)) [
  | inl absent ↦ rw (absent, upsert_id) d
  | inr (k, present) ↦ elim (Option-cases (find_index k rows)) [
    | inl missing ↦
        rw (present, upsert_id, missing, ids-append)
          (Distinct-append_one (ids rows) k d (find_index-none k rows missing))
    | inr (i, found) ↦
        rw
          (
            present,
            upsert_id,
            found,
            ids-update_at i (set_row (or_else e.payload.text "") status) rows (λ row. refl),
          )
          d
  ]
]

pub ids-revise :
    (k : Option String) (payload : EventData) (s : RealtimeState)
    → ids (revise k payload s).rows ≡ ids s.rows
unfolding revise
ids-revise none payload s = refl
ids-revise (some k) payload s = elim (Option-cases (find_index k s.rows)) [
  | inl missing ↦ rw (missing, revise_found)
  | inr (zero, found) ↦ rw (found, revise_found) (ids-update_at zero _ s.rows (λ row. refl))
  | inr (suc i, found) ↦
      rw (found, revise_found)
        (ids-update_at i _ _ (λ row. refl) ∙ ids-update_at (suc i) _ s.rows (λ row. refl))
]

get_elem?-update_at :
    (i j : ℕ) (f : TranscriptRow → TranscriptRow) (rows : List TranscriptRow)
    → get_elem? (update_at i f rows) j ≡ (
        if i == j
        then elim (get_elem? rows j) [ none ↦ none | some row ↦ some (f row) ]
        else get_elem? rows j)
unfolding update_at
get_elem?-update_at i j f [] = ground arith
get_elem?-update_at zero zero f (row ∷ rows) = refl
get_elem?-update_at zero (suc j) f (row ∷ rows) = ground arith
get_elem?-update_at (suc i) zero f (row ∷ rows) = ground arith
get_elem?-update_at (suc i) (suc j) f (row ∷ rows) = ground (arith, get_elem?-update_at i j f rows)

-- What a revision does to the row at `j` when the revised row stands at `i`.
abbrev pub revised_row : ℕ → ℕ → EventData → TranscriptRow → TranscriptRow
revised_row i j payload row =
    if i == j
    then set_row (or_else payload.current_text row.text) RowStatus.revisable row
    else if i == suc j
    then set_row (or_else payload.previous_text row.text) RowStatus.locked row
    else row

get_elem?-revise_at :
    (i j : ℕ) (payload : EventData) (rows : List TranscriptRow)
    → get_elem? (revise_at i payload rows) j
      ≡ Option.map (revised_row i j payload) (get_elem? rows j)
unfolding revise_at lock_previous
get_elem?-revise_at zero j payload rows = rw (get_elem?-update_at zero j _ rows) (ground arith)
get_elem?-revise_at (suc i) j payload rows =
    rw (get_elem?-update_at i j _ (update_at (suc i) _ rows), get_elem?-update_at (suc i) j _ rows)
      (ground arith)

-- A revision of an utterance that has a row gives that row the current text as revisable, locks the
-- row just before it with the previous text, and leaves every other row as it was; a text that the
-- event lacks is kept.
pub get_elem?-revise :
    (k : String) (payload : EventData) (s : RealtimeState) (i j : ℕ)
    → find_index k s.rows ≡ some i
    → get_elem? (revise (some k) payload s).rows j
      ≡ Option.map (revised_row i j payload) (get_elem? s.rows j)
unfolding revise revise_found
get_elem?-revise k payload s i j found =
    rw (found, revise_found) (get_elem?-revise_at i j payload s.rows)

includes-ids-keep :
    (cs : List String) (k : String) (rows : List TranscriptRow)
    → includes (ids rows) k ≡ false
    → includes (ids (completed_rows cs rows)) k ≡ false
includes-ids-keep cs k [] h = refl
includes-ids-keep cs k (row ∷ rows) h = ground (arith, includes-ids-keep cs k rows)

pub ids-completed_rows-Distinct :
    (cs : List String) (rows : List TranscriptRow)
    → Distinct (ids rows)
    → Distinct (ids (completed_rows cs rows))
ids-completed_rows-Distinct cs [] d = tt
ids-completed_rows-Distinct cs (row ∷ rows) d =
    ground
      (arith, includes-ids-keep cs row.utterance_id rows, ids-completed_rows-Distinct cs rows d.1)

row_of-completed_rows :
    (cs : List String) (k : String) (rows : List TranscriptRow)
    → row_of k (completed_rows cs rows) ≡ (if includes cs k then row_of k rows else none)
row_of-completed_rows cs k [] = ground arith
row_of-completed_rows cs k (row ∷ rows) =
    ground (arith, row_of-completed_rows cs k rows, eq_iff row.utterance_id k)

-- After a switch of models the rows of the completed utterances are there unchanged, and no others.
pub row_of-model_switched :
    (s : RealtimeState) (k : String)
    → row_of k (realtime_reducer s model_switched).rows
      ≡ (if includes s.completed_utterance_ids k then row_of k s.rows else none)
unfolding realtime_reducer
row_of-model_switched s k = row_of-completed_rows s.completed_utterance_ids k s.rows
