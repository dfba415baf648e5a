-- ===== src/Graph/Edges.antt =====
-- frontend/realtime/src/graph/textGraph.ts: the edges join nodes of the graph.
use agent_speak.Base.{
  ℕ, zero, suc, ◌*◌, ◌≤◌, String, Bool, true, false, List, [], ◌∷◌, ◌++◌, map, if◌then◌else◌, ltb,
  leb, leb→le, length, take, keep, includes, includes-append, eq_refl, length-take, length-append,
  All, All-append, append_assoc, ◌≡◌, refl, ap, arith,
}
use mathlib.Core.Path.{subst}
use agent_speak.Graph.{
  Addend, Input, Node, timeline, similarity, Edge, Candidate, timeline_edges, but_last,
  insert_candidate, sort_candidates, candidates, edges_to, similarity_edges, bounded_rows, nodes_of,
  build_text_graph,
}

abbrev pub ids : List Node → List String
ids [] = []
ids (n ∷ ns) = n.utterance_id ∷ ids ns

-- The score is that of the timeline, or reaches the threshold.
abbrev pub IsScored : ℕ → ℕ → Edge → Type 0
IsScored full threshold e = elim e.kind [
  | timeline ↦ e.score ≡ full
  | similarity ↦ threshold ≤ e.score
]

pub record IsLink (full threshold : ℕ) (known : List String) (e : Edge) : Type 0 where
  pub from_node : includes known e.source ≡ true
  pub to_node : includes known e.target ≡ true
  pub scored : IsScored full threshold e

abbrev Known : List String → Node → Type 0
Known known n = includes known n.utterance_id ≡ true

ids-Known : (before : List String) (ns : List Node) → All (Known (before ++ ids ns)) ns
ids-Known before [] = tt
ids-Known before (n ∷ ns) = (
  ground (
    arith,
    includes-append before (n.utterance_id ∷ ids ns) n.utterance_id,
    eq_refl n.utterance_id,
  ),
  subst (λ known. All (Known known) ns) (append_assoc before (n.utterance_id ∷ []) (ids ns))
      (ids-Known (before ++ n.utterance_id ∷ []) ns),
)

timeline-AreLinks :
    (full threshold : ℕ) (known : List String) (ns : List Node)
    → All (Known known) ns
    → All (IsLink full threshold known) (timeline_edges full ns)
unfolding timeline_edges
timeline-AreLinks full threshold known [] h = tt
timeline-AreLinks full threshold known (a ∷ []) h = tt
timeline-AreLinks full threshold known (a ∷ b ∷ ns) h = (
  record { from_node = h.0; to_node = h.1.0; scored = refl },
  timeline-AreLinks full threshold known (b ∷ ns) h.1,
)

-- What holds of every candidate that is kept.
abbrev IsGood : ℕ → List String → Candidate → Type 0
IsGood threshold known c = Known known c.node × (threshold ≤ c.score)

but_last-Known :
    (known : List String) (ns : List Node) → All (Known known) ns → All (Known known) (but_last ns)
but_last-Known known [] h = tt
but_last-Known known (a ∷ []) h = tt
but_last-Known known (a ∷ b ∷ ns) h = (h.0, but_last-Known known (b ∷ ns) h.1)

kept-AreGood :
    (threshold : ℕ) (known : List String) (score : Node → ℕ) (ns : List Node)
    → All (Known known) ns
    → All
        (IsGood threshold known)
        (keep (λ c. leb threshold c.score) (map (λ n. record { node = n; score = score n }) ns))
kept-AreGood threshold known score [] h = tt
kept-AreGood threshold known score (n ∷ ns) h =
    kept (leb threshold (score n)) refl (kept-AreGood threshold known score ns h.1)
  where
    kept :
        (b : Bool)
        → leb threshold (score n) ≡ b
        → (let later : List Candidate =
              keep
                (λ c. leb threshold c.score)
                (map (λ n. record { node = n; score = score n }) ns) in
            All (IsGood threshold known) later
            → All
                (IsGood threshold known)
                (if b then record { node = n; score = score n } ∷ later else later))
    kept true e k = ((h.0, leb→le threshold (score n) e), k)
    kept false e k = k

insert-All :
    (P : Candidate → Type 0) (c : Candidate) (cs : List Candidate)
    → P c
    → All P cs
    → All P (insert_candidate c cs)
insert-All P c [] p h = (p, tt)
insert-All P c (d ∷ ds) p h = placed (ltb c.score d.score) (insert-All P c ds p h.1)
  where
    placed :
        (b : Bool)
        → All P (insert_candidate c ds)
        → All P (if b then d ∷ insert_candidate c ds else c ∷ d ∷ ds)
    placed true k = (h.0, k)
    placed false k = (p, h)

sort-All : (P : Candidate → Type 0) (cs : List Candidate) → All P cs → All P (sort_candidates cs)
unfolding sort_candidates
sort-All P [] h = tt
sort-All P (c ∷ cs) h = insert-All P c (sort_candidates cs) h.0 (sort-All P cs h.1)

take-All : (P : Candidate → Type 0) (n : ℕ) (cs : List Candidate) → All P cs → All P (take n cs)
take-All P zero cs h = tt
take-All P (suc n) [] h = tt
take-All P (suc n) (c ∷ cs) h = (h.0, take-All P n cs h.1)

edges_to-AreLinks :
    (full threshold : ℕ) (known : List String) (target : Node) (cs : List Candidate)
    → Known known target
    → All (IsGood threshold known) cs
    → All (IsLink full threshold known) (edges_to target cs)
edges_to-AreLinks full threshold known target [] t h = tt
edges_to-AreLinks full threshold known target (c ∷ cs) t h = (
  record { from_node = h.0.0; to_node = t; scored = h.0.1 },
  edges_to-AreLinks full threshold known target cs t h.1,
)

similarity-AreLinks :
    (score : List Addend → List Addend → ℕ) (full threshold : ℕ) (known : List String)
    (earlier targets : List Node)
    → All (Known known) earlier
    → All (Known known) targets
    → All (IsLink full threshold known) (similarity_edges score threshold earlier targets)
unfolding similarity_edges candidates
similarity-AreLinks score full threshold known earlier [] e h = tt
similarity-AreLinks score full threshold known earlier (target ∷ targets) e h =
    All-append (IsLink full threshold known)
      (edges_to target (candidates score threshold earlier target)) _
      (edges_to-AreLinks full threshold known target (candidates score threshold earlier target) h.0
        (take-All (IsGood threshold known) 2 _ (
          sort-All (IsGood threshold known) _ (
            kept-AreGood threshold known (λ n. score n.vector target.vector) (but_last earlier)
              (but_last-Known known earlier e)))))
      (similarity-AreLinks score full threshold known (earlier ++ target ∷ []) targets
        (All-append (Known known) earlier (target ∷ []) e (h.0, tt)) h.1)

length-timeline_edges : (full : ℕ) (ns : List Node) → length (timeline_edges full ns) ≤ length ns
unfolding timeline_edges
length-timeline_edges full [] = omega arith
length-timeline_edges full (a ∷ []) = omega arith
length-timeline_edges full (a ∷ b ∷ ns) =
    let later = length-timeline_edges full (b ∷ ns) in omega arith

length-edges_to : (target : Node) (cs : List Candidate) → length (edges_to target cs) ≡ length cs
length-edges_to target [] = refl
length-edges_to target (c ∷ cs) = ap suc (length-edges_to target cs)

length-take_two : (cs : List Candidate) → length (take 2 cs) ≤ 2
length-take_two cs = ground (arith, length-take 2 cs)

length-candidates :
    (score : List Addend → List Addend → ℕ) (threshold : ℕ) (earlier : List Node) (target : Node)
    → length (candidates score threshold earlier target) ≤ 2
unfolding candidates
length-candidates score threshold earlier target = length-take_two _

length-similarity_edges :
    (score : List Addend → List Addend → ℕ) (threshold : ℕ) (earlier targets : List Node)
    → length (similarity_edges score threshold earlier targets) ≤ 2 * length targets
unfolding similarity_edges
length-similarity_edges score threshold earlier [] = omega arith
length-similarity_edges score threshold earlier (target ∷ targets) =
    let cs = candidates score threshold earlier target in
    let rest = similarity_edges score threshold (earlier ++ target ∷ []) targets in
    let first : length (edges_to target cs) ≤ 2 =
      ground (arith, length-edges_to target cs, length-candidates score threshold earlier target) in
    let later = length-similarity_edges score threshold (earlier ++ target ∷ []) targets in
    ground (arith, length-append (edges_to target cs) rest)

-- Every edge of a graph joins two of its nodes, with the full score along the timeline and a score that
-- reaches the threshold otherwise, and there are at most three edges for each node.
pub build_text_graph-AreLinks :
    (tokens : String → List (List ℕ)) (score : List Addend → List Addend → ℕ)
    (full max_nodes threshold : ℕ) (rows : List Input)
    → let (nodes, edges) = build_text_graph tokens score full max_nodes threshold rows in
      All (IsLink full threshold (ids nodes)) edges × (length edges ≤ 3 * length nodes)
unfolding build_text_graph
build_text_graph-AreLinks tokens score full max_nodes threshold rows =
    let nodes = nodes_of tokens (bounded_rows max_nodes rows) in
    let along = timeline_edges full nodes in
    let across = similarity_edges score threshold [] nodes in
    let known = ids-Known [] nodes in
    (
      All-append (IsLink full threshold (ids nodes)) along across
          (timeline-AreLinks full threshold (ids nodes) nodes known)
          (similarity-AreLinks score full threshold (ids nodes) [] nodes tt known),
      ground (
        arith,
        length-append along across,
        length-timeline_edges full nodes,
        length-similarity_edges score threshold [] nodes,
      ),
    )
