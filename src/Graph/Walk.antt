-- ===== src/Graph/Walk.antt =====
-- The walk ends, and what it finds.
use flyto_warroom.Prelude.{
  ℕ, zero, suc, ◌+◌, ◌*◌, ◌≤◌, ◌<◌, ◌≡◌, refl, sym, String, true, false, not, Option, none, some,
  List, [], ◌∷◌, ◌++◌, arith, All, any, select, length, length-select-le, leb, ltb, str_eq, eq_iff,
  if_elim, Bool-cases, inl, inr,
}
use mathlib.Core.Path.{subst}
use flyto_warroom.Graph.{
  GraphEdge, neighbors, is_visited, Queue, enqueue_new, with_item, walk, traverse_graph,
}

-- The ends of the edges.
ends : List GraphEdge → List String
ends [] = []
ends (e ∷ es) = e.source_id ∷ e.target_id ∷ ends es

unvisited : List String → List String → ℕ
unvisited visited points = length (select (λ p. not (is_visited visited p)) points)

unvisited-le :
    (id : String) (visited points : List String)
    → unvisited (id ∷ visited) points ≤ unvisited visited points
unfolding unvisited select any
unvisited-le id visited [] = omega arith
unvisited-le id visited (p ∷ ps) = ground (arith, unvisited-le id visited ps)

unvisited-lt :
    (id : String) (visited points : List String)
    → is_visited points id ≡ true
    → is_visited visited id ≡ false
    → unvisited (id ∷ visited) points < unvisited visited points
unfolding unvisited select any
unvisited-lt id visited [] m h = absurd (cc m)
unvisited-lt id visited (p ∷ ps) m h = elim (Bool-cases (str_eq p id)) [
  | inl e ↦
      let le = unvisited-le id visited ps in
      let here : any (λ v. str_eq v p) visited ≡ false =
        subst (λ x. any (λ v. str_eq v x) visited ≡ false) (sym ((eq_iff p id).0 e)) h in
      let same = (eq_iff id p).1 (sym ((eq_iff p id).0 e)) in ground (arith, le, here, same)
  | inr e ↦ ground (arith, unvisited-lt id visited ps, unvisited-le id visited ps, e, m)
]

All-widen :
    (p : String) (ps ns : List String)
    → All (λ n. is_visited ps n ≡ true) ns
    → All (λ n. is_visited (p ∷ ps) n ≡ true) ns
unfolding any
All-widen p ps [] all = tt
All-widen p ps (n ∷ ns) (h, all) = (ground (arith, h), All-widen p ps ns all)

neighbors-ends :
    (edges : List GraphEdge) (id : String)
    → All (λ n. is_visited (ends edges) n ≡ true) (neighbors edges id)
unfolding neighbors ends any
neighbors-ends [] id = tt
neighbors-ends (e ∷ es) id =
    let rest =
      All-widen e.source_id (e.target_id ∷ ends es) _
        (All-widen e.target_id (ends es) _ (neighbors-ends es id)) in
    let source = (eq_iff e.source_id e.source_id).1 refl in
    let target = (eq_iff e.target_id e.target_id).1 refl in
    if_elim (All (λ n. is_visited (ends (e ∷ es)) n ≡ true)) (str_eq e.source_id id)
      (λ q. (
        ground (arith, target),
        if_elim (All (λ n. is_visited (ends (e ∷ es)) n ≡ true)) (str_eq e.target_id id)
            (λ r. (ground (arith, source), rest)) (λ r. rest),
      ))
      (λ q.
        if_elim (All (λ n. is_visited (ends (e ∷ es)) n ≡ true)) (str_eq e.target_id id)
          (λ r. (ground (arith, source), rest)) (λ r. rest))

length-snoc {ℓ} : {A : Type ℓ} (xs : List A) (x : A) → length (xs ++ x ∷ []) ≡ suc (length xs)
length-snoc [] x = omega arith
length-snoc (y ∷ ys) x = omega (arith, length-snoc ys x)

-- What is pushed was not visited before.
enqueue_new-le :
    (points : List String) (depth : ℕ) (ns visited : List String) (queue : Queue)
    → All (λ n. is_visited points n ≡ true) ns
    → let r = enqueue_new depth ns visited queue in
      unvisited r.0 points + length r.1 ≤ unvisited visited points + length queue
unfolding enqueue_new
enqueue_new-le points depth [] visited queue all = omega arith
enqueue_new-le points depth (n ∷ ns) visited queue (m, all) =
    elim (Bool-cases (is_visited visited n)) [
      | inl e ↦ rw (e, enqueue_new) (enqueue_new-le points depth ns visited queue all)
      | inr e ↦
          rw (e, enqueue_new)
            (omega (
              arith,
              enqueue_new-le points depth ns (n ∷ visited) (queue ++ (n, suc depth) ∷ []) all,
              unvisited-lt n visited points m e,
              length-snoc queue (n, suc depth),
            ))
    ]

with_item-some :
    (depth : ℕ) (id : String) (o : Option (List String)) (rs : List String)
    → o ≡ some rs
    → (qs : List String) × (with_item depth id o ≡ some qs)
unfolding with_item
with_item-some depth id none rs e = absurd (cc e)
with_item-some depth id (some r) rs e = elim (Bool-cases (ltb 0 depth)) [
  | inl h ↦ (id ∷ r, rw (h, with_item) refl)
  | inr h ↦ (r, rw (h, with_item) refl)
]

walk-some :
    (n : ℕ) (edges : List GraphEdge) (max_depth : ℕ) (visited : List String) (queue : Queue)
    → unvisited visited (ends edges) + length queue ≤ n
    → (rs : List String) × (walk n edges max_depth visited queue ≡ some rs)
unfolding walk
walk-some n edges max_depth visited [] h = ([], refl)
walk-some zero edges max_depth visited (item ∷ queue) h = absurd (omega (arith, h))
walk-some (suc n) edges max_depth visited ((id, depth) ∷ queue) h =
    elim (Bool-cases (leb max_depth depth)) [
      | inl e ↦
          let (rs, q) = walk-some n edges max_depth visited queue (omega (arith, h)) in
          let (qs, r) = with_item-some depth id (walk n edges max_depth visited queue) rs q in
          (qs, rw (e, walk) r)
      | inr e ↦
          let pushed = enqueue_new depth (neighbors edges id) visited queue in
          let le =
            enqueue_new-le (ends edges) depth (neighbors edges id) visited queue
              (neighbors-ends edges id) in
          let (rs, q) = walk-some n edges max_depth pushed.0 pushed.1 (omega (arith, h, le)) in
          let (qs, r) = with_item-some depth id (walk n edges max_depth pushed.0 pushed.1) rs q in
          (qs, rw (e, walk) r)
    ]

length-ends : (edges : List GraphEdge) → length (ends edges) ≡ 2 * length edges
unfolding ends
length-ends [] = omega arith
length-ends (e ∷ es) = omega (arith, length-ends es)

-- The walk over the graph ends, with loops and multiple edges too: two rounds for every edge and one more are
-- enough.
pub walk_ends :
    (start : String) (edges : List GraphEdge) (max_depth : ℕ)
    → (rs : List String) × (traverse_graph (suc (2 * length edges)) start edges max_depth ≡ some rs)
unfolding traverse_graph unvisited
walk_ends start edges max_depth =
    walk-some (suc (2 * length edges)) edges max_depth (start ∷ []) ((start, 0) ∷ []) (
      omega (
        arith,
        length-ends edges,
        length-select-le (λ p. not (is_visited (start ∷ []) p)) (ends edges),
      ))
