-- ===== src/Graph/Reach.antt =====
-- What the walk returns is within reach.
use flyto_warroom.Prelude.{
  ℕ, zero, suc, ◌≤◌, ◌<◌, ◌≡◌, refl, String, Option, none, some, List, [], ◌∷◌, ◌++◌, arith, All,
  leb, ltb, Bool-cases, inl, inr,
}
use mathlib.Core.Path.{subst}
use mathlib.Core.List.{Memᴰ}
use flyto_warroom.Graph.{
  GraphEdge, neighbors, is_visited, Queue, enqueue_new, with_item, walk, traverse_graph,
}

-- Connected to the start by so many edges, taken in either direction.
pub data Within (edges : List GraphEdge) (start : String) : ℕ → String → Type 0 where
  here : Within edges start 0 start
  further :
      (d : ℕ) (x n : String)
      → Within edges start d x
      → Memᴰ n (neighbors edges x)
      → Within edges start (suc d) n

some_eq : {A : Type 0} {x y : A} → some x ≡ some y → x ≡ y
some_eq e = ground arith

All-members {ℓ} :
    {A : Type ℓ} (xs ys : List A) → ((x : A) → Memᴰ x ys → Memᴰ x xs) → All (λ x. Memᴰ x xs) ys
All-members xs [] inside = tt
All-members xs (y ∷ ys) inside =
    (inside y (Memᴰ.head refl), All-members xs ys (λ x m. inside x (Memᴰ.tail m)))

All-snoc {ℓ κ} :
    {A : Type ℓ} (P : A → Type κ) (xs : List A) (x : A) → All P xs → P x → All P (xs ++ x ∷ [])
All-snoc P [] x all p = (p, tt)
All-snoc P (y ∷ ys) x (h, all) p = (h, All-snoc P ys x all p)

module _ (edges : List GraphEdge) (start : String) (max_depth : ℕ) where
  abbrev IsNear : String × ℕ → Type 0
  IsNear item = Within edges start item.1 item.0 × (item.1 ≤ max_depth)

  -- Affected: by at least one edge, and no more than the depth asked for.
  abbrev pub IsAffected : String → Type 0
  IsAffected x = (d : ℕ) × (0 < d) × (d ≤ max_depth) × Within edges start d x

  enqueue_new-IsNear :
      (id : String) (depth : ℕ) (ns visited : List String) (queue : Queue)
      → Within edges start depth id
      → suc depth ≤ max_depth
      → All (λ n. Memᴰ n (neighbors edges id)) ns
      → All IsNear queue
      → All IsNear (enqueue_new depth ns visited queue).1
  unfolding enqueue_new
  enqueue_new-IsNear id depth [] visited queue w le all near = near
  enqueue_new-IsNear id depth (n ∷ ns) visited queue w le (m, all) near =
      elim (Bool-cases (is_visited visited n)) [
        | inl e ↦ rw (e, enqueue_new) (enqueue_new-IsNear id depth ns visited queue w le all near)
        | inr e ↦
            rw (e, enqueue_new)
              (enqueue_new-IsNear id depth ns (n ∷ visited) (queue ++ (n, suc depth) ∷ []) w le all
                (All-snoc IsNear queue (n, suc depth) near (further depth id n w m, le)))
      ]

  with_item-IsAffected :
      (depth : ℕ) (id : String) (o : Option (List String)) (rs : List String)
      → IsNear (id, depth)
      → with_item depth id o ≡ some rs
      → ((qs : List String) → o ≡ some qs → All IsAffected qs)
      → All IsAffected rs
  unfolding with_item
  with_item-IsAffected depth id none rs near e keep = absurd (cc e)
  with_item-IsAffected depth id (some r) rs (w, le) e keep = elim (Bool-cases (ltb 0 depth)) [
    | inl h ↦
        subst (All IsAffected) (some_eq (rw (h, with_item) at e))
          ((depth, ground (arith, h), le, w), keep r refl)
    | inr h ↦ subst (All IsAffected) (some_eq (rw (h, with_item) at e)) (keep r refl)
  ]

  walk-IsAffected :
      (n : ℕ) (visited : List String) (queue : Queue) (rs : List String)
      → All IsNear queue
      → walk n edges max_depth visited queue ≡ some rs
      → All IsAffected rs
  unfolding walk
  walk-IsAffected n visited [] rs near e = subst (All IsAffected) (some_eq e) tt
  walk-IsAffected zero visited (item ∷ queue) rs near e = absurd (cc e)
  walk-IsAffected (suc n) visited ((id, depth) ∷ queue) rs ((w, le), near) e =
      elim (Bool-cases (leb max_depth depth)) [
        | inl h ↦
            with_item-IsAffected depth id (walk n edges max_depth visited queue) rs (w, le)
              (rw (h, walk) at e) (λ qs q. walk-IsAffected n visited queue qs near q)
        | inr h ↦
            let pushed = enqueue_new depth (neighbors edges id) visited queue in
            with_item-IsAffected depth id (walk n edges max_depth pushed.0 pushed.1) rs (w, le)
              (rw (h, walk) at e)
              (λ qs q.
                walk-IsAffected n pushed.0 pushed.1 qs
                  (enqueue_new-IsNear id depth (neighbors edges id) visited queue w
                    (ground (arith, h))
                    (All-members (neighbors edges id) (neighbors edges id) (λ x m. m)) near)
                  q)
      ]

-- Every resource that the walk returns is connected to the start by at least one edge and at most as many
-- as the depth asked for.
pub found_near_start :
    (rounds : ℕ) (start : String) (edges : List GraphEdge) (max_depth : ℕ) (rs : List String)
    → traverse_graph rounds start edges max_depth ≡ some rs
    → All (IsAffected edges start max_depth) rs
unfolding traverse_graph
found_near_start rounds start edges max_depth rs e =
    walk-IsAffected edges start max_depth rounds (start ∷ []) ((start, 0) ∷ []) rs
      ((here, omega arith), tt) e
