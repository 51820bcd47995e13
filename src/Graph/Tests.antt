-- ===== src/Graph/Tests.antt =====
-- The walk over a triangle with a tail.
use flyto_warroom.Prelude.{suc, ◌*◌, ◌≡◌, refl, String, some, List, [], ◌∷◌, All, any, length}
use flyto_warroom.Graph.{GraphEdge, traverse_graph}
use flyto_warroom.Graph.Walk.{walk_ends}
use flyto_warroom.Graph.Reach.{IsAffected, found_near_start}

abbrev edge : String → String → GraphEdge
edge a b = record { source_id = a; target_id = b }

abbrev triangle : List GraphEdge
triangle = edge "a" "b" ∷ edge "b" "c" ∷ edge "c" "a" ∷ edge "d" "c" ∷ []

walk_ends_example :
    (rs : List String) × (traverse_graph (suc (2 * length triangle)) "a" triangle 1 ≡ some rs)
walk_ends_example = walk_ends "a" triangle 1

one_step : traverse_graph 9 "a" triangle 1 ≡ some ("b" ∷ "c" ∷ [])
unfolding traverse_graph any
one_step = refl

found_near_start_example : All (IsAffected triangle "a" 1) ("b" ∷ "c" ∷ [])
found_near_start_example = found_near_start 9 "a" triangle 1 ("b" ∷ "c" ∷ []) one_step
