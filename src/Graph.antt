-- ===== src/Graph.antt =====
-- resource/graph.go: what a change of a resource affects, by a breadth-first walk over the edges taken in both
-- directions. The rounds of the queue's loop are an argument.
pub mod Walk
pub mod Reach
mod Tests
use flyto_warroom.Prelude.{
  ℕ, zero, suc, ◌+◌, String, Bool, true, false, Option, none, some, List, [], ◌∷◌, ◌++◌, any,
  length, leb, ltb, str_eq, if◌then◌else◌,
}

pub record GraphEdge : Type 0 where
  pub source_id : String
  pub target_id : String

pub record ImpactResult : Type 0 where
  pub affected_ids : List String
  pub total_affected : ℕ

-- `buildAdj(edges)[id]`
unfoldable pub neighbors : List GraphEdge → String → List String
neighbors [] id = []
neighbors (e ∷ es) id =
    let rest = neighbors es id in
    let backward = if str_eq e.target_id id then e.source_id ∷ rest else rest in
    if str_eq e.source_id id then e.target_id ∷ backward else backward

abbrev pub is_visited : List String → String → Bool
is_visited visited id = any (λ v. str_eq v id) visited

abbrev pub Queue : Type 0
Queue = List (String × ℕ)

-- The loop over the neighbours of an item.
unfoldable pub enqueue_new :
    (depth : ℕ) → List String → (visited : List String) → Queue → List String × Queue
enqueue_new depth [] visited queue = (visited, queue)
enqueue_new depth (n ∷ ns) visited queue =
    let skip = enqueue_new depth ns visited queue in
    let push = enqueue_new depth ns (n ∷ visited) (queue ++ (n, suc depth) ∷ []) in
    if is_visited visited n then skip else push

unfoldable pub with_item : (depth : ℕ) → String → Option (List String) → Option (List String)
with_item depth id none = none
with_item depth id (some result) = if ltb 0 depth then some (id ∷ result) else some result

-- The loop over the queue.
unfoldable pub walk :
    ℕ → List GraphEdge → (max_depth : ℕ) → (visited : List String) → Queue → Option (List String)
unfolding enqueue_new neighbors with_item
walk n edges max_depth visited [] = some []
walk zero edges max_depth visited (item ∷ queue) = none
walk (suc n) edges max_depth visited ((id, depth) ∷ queue) =
    let pushed = enqueue_new depth (neighbors edges id) visited queue in
    let stop = walk n edges max_depth visited queue in
    let next = walk n edges max_depth pushed.0 pushed.1 in
    with_item depth id (if leb max_depth depth then stop else next)

unfoldable pub traverse_graph :
    (rounds : ℕ) → (start : String) → List GraphEdge → (max_depth : ℕ) → Option (List String)
unfolding walk
traverse_graph rounds start edges max_depth =
    walk rounds edges max_depth (start ∷ []) ((start, 0) ∷ [])

-- `FindImpacted`
unfoldable pub impact_of : Option (List String) → Option ImpactResult
impact_of none = none
impact_of (some affected) =
    some (record { affected_ids = affected; total_affected = length affected })

unfoldable pub find_impacted :
    (rounds : ℕ) → (changed : String) → List GraphEdge → (max_depth : ℕ) → Option ImpactResult
unfolding impact_of traverse_graph
find_impacted rounds changed edges max_depth =
    impact_of (traverse_graph rounds changed edges max_depth)
