-- ===== src/ParallelPlan/Termination.antt =====
-- The search for cycles of scripts/validate-parallel-plan.py returns: each call of `dfs` turns a white
-- node gray, so the number of nodes is depth enough, and every dependency is a known node.
use ai_coding_workflow.Prelude.{
  ℕ, zero, suc, ◌+◌, ◌≤◌, String, ◌≡◌, ◌≢◌, refl, subst, true, false, Option, none, some, List, [],
  ◌∷◌, mem, if◌then◌else◌, length, arith, Dict, dict_get, dict_put, lacks, dict_get-dict_put, All,
  All-map, All_of_mem, not,
}
use ai_coding_workflow.ParallelPlan.Graph.{
  Task, Color, white, gray, black, Search, SearchResult, searched, cycle, key_error, too_deep, adj,
  enter, after_search, visit, visit_all, dfs, is_white, search_all, all_white, find_cycle,
}

abbrev pub weight : Color → ℕ
weight white = 1
weight _ = 0

-- the nodes that are still white
abbrev pub whites : Dict Color → ℕ
whites [] = 0
whites ((k, c) ∷ d) = weight c + whites d

pub whites-gray :
    (k : String) (d : Dict Color)
    → dict_get k d ≡ some white
    → suc (whites (dict_put k gray d)) ≡ whites d
unfolding dict_get dict_put
whites-gray k [] h = cc
whites-gray k ((j, white) ∷ d) h = ground (arith, whites-gray k d)
whites-gray k ((j, gray) ∷ d) h = ground (arith, whites-gray k d)
whites-gray k ((j, black) ∷ d) h = ground (arith, whites-gray k d)

whites-black : (k : String) (d : Dict Color) → whites (dict_put k black d) ≤ whites d
unfolding dict_put
whites-black k [] = omega arith
whites-black k ((j, c) ∷ d) = ground (arith, whites-black k d)

whites-put : (k : String) (c : Color) (d : Dict Color) → whites (dict_put k c d) ≤ suc (whites d)
unfolding dict_put
whites-put k white [] = omega arith
whites-put k gray [] = omega arith
whites-put k black [] = omega arith
whites-put k white ((j, c) ∷ d) = ground (arith, whites-put k white d)
whites-put k gray ((j, c) ∷ d) = ground (arith, whites-put k gray d)
whites-put k black ((j, c) ∷ d) = ground (arith, whites-put k black d)

-- Every dependency is a node.
abbrev pub IsKnown : List Task → Search → Type 0
IsKnown tasks s = (u v : String) → mem v (adj tasks u) ≡ true → lacks v s.color ≡ false

-- A part of the search that returns, with no more white nodes than before and no node lost.
abbrev pub IsFine : Search → SearchResult → Type 0
IsFine s (searched t) =
    (whites t.color ≤ whites s.color)
    × ((v : String) → lacks v s.color ≡ false → lacks v t.color ≡ false)
IsFine s (cycle c) = Unit
IsFine s key_error = ¬ Unit {0}
IsFine s too_deep = ¬ Unit {0}

pub lacks-put :
    (k j : String) (c : Color) (d : Dict Color)
    → lacks k d ≡ false
    → lacks k (dict_put j c d) ≡ false
lacks-put k j c d h = ground (arith, dict_get-dict_put k j c d)

IsFine-trans : (s t : Search) (o : SearchResult) → IsFine s (searched t) → IsFine t o → IsFine s o
IsFine-trans s t (searched u) (n, k) (m, l) = (omega arith, λ v h. l v (k v h))
IsFine-trans s t (cycle c) h g = tt
IsFine-trans s t key_error h g = g
IsFine-trans s t too_deep h g = g

IsFine-after_search :
    (s : Search) (o : SearchResult) (next : Search → SearchResult)
    → IsFine s o
    → ((t : Search) → IsFine s (searched t) → IsFine t (next t))
    → IsFine s (after_search o next)
IsFine-after_search s (searched t) next h g = IsFine-trans s t (next t) h (g t h)
IsFine-after_search s (cycle c) next h g = tt
IsFine-after_search s key_error next h g = h
IsFine-after_search s too_deep next h g = h

module _ (tasks : List Task) where
  IsKnown-later : (s t : Search) → IsFine s (searched t) → IsKnown tasks s → IsKnown tasks t
  IsKnown-later s t f k u v m = f.1 v (k u v m)

  -- A loop over known neighbors is fine, when the recursive calls at white nodes are.
  visit_all-IsFine :
      (n : ℕ) (rec : String → Search → SearchResult)
      → ((v : String) (s : Search)
          → dict_get v s.color ≡ some white
          → whites s.color ≤ n
          → IsKnown tasks s
          → IsFine s (rec v s))
      → (vs : List String) (s : Search) → All (λ v. lacks v s.color ≡ false) vs
      → whites s.color ≤ n
      → IsKnown tasks s
      → IsFine s (visit_all rec vs s)
  unfolding visit_all
  visit_all-IsFine n rec go [] s a w k = (omega arith, λ v h. h)
  visit_all-IsFine n rec go (v ∷ vs) s a w k =
      IsFine-after_search s (visit rec (dict_get v s.color) v s) (visit_all rec vs)
        (one (dict_get v s.color) refl)
        λ t f.
          visit_all-IsFine n rec go vs t (All-map (λ x. f.1 x) vs a.1) (omega arith)
            (IsKnown-later s t f k)
    where
      one : (o : Option Color) → dict_get v s.color ≡ o → IsFine s (visit rec o v s)
      one none e = absurd (ground arith)
      one (some white) e = go v s e w k
      one (some gray) e = tt
      one (some black) e = (omega arith, λ x h. h)

  dfs-IsFine :
      (fuel : ℕ) (node : String) (s : Search)
      → dict_get node s.color ≡ some white
      → whites s.color ≤ fuel
      → IsKnown tasks s
      → IsFine s (dfs tasks fuel node s)
  unfolding dfs
  dfs-IsFine zero node s e w k = absurd (omega (arith, whites-gray node s.color e))
  dfs-IsFine (suc fuel) node s e w k =
      let grayed = whites-gray node s.color e in
      let entered : IsFine s (searched (enter node s)) =
        (omega arith, λ v h. lacks-put v node gray s.color h) in
      let known = IsKnown-later s (enter node s) entered k in
      IsFine-trans s (enter node s) _ entered (
        IsFine-after_search (enter node s)
          (visit_all (dfs tasks fuel) (adj tasks node) (enter node s)) _
          (visit_all-IsFine fuel (dfs tasks fuel) (dfs-IsFine fuel) (adj tasks node) (enter node s)
            (All_of_mem _ (adj tasks node) (known node)) (omega arith) known)
          λ t f. (whites-black node t.color, λ v h. lacks-put v node black t.color h))

  search_all-IsFine :
      (fuel : ℕ) (vs : List String) (s : Search)
      → whites s.color ≤ fuel
      → IsKnown tasks s
      → IsFine s (search_all tasks fuel vs s)
  unfolding search_all
  search_all-IsFine fuel [] s w k = (omega arith, λ v h. h)
  search_all-IsFine fuel (v ∷ vs) s w k =
      IsFine-after_search s _ (search_all tasks fuel vs) (one (dict_get v s.color) refl)
        λ t f. search_all-IsFine fuel vs t (omega (arith, f.0)) (IsKnown-later s t f k)
    where
      one :
          (o : Option Color)
          → dict_get v s.color ≡ o
          → IsFine s (if is_white o then dfs tasks fuel v s else searched s)
      one none e = (omega arith, λ x h. h)
      one (some white) e = dfs-IsFine fuel v s e w k
      one (some gray) e = (omega arith, λ x h. h)
      one (some black) e = (omega arith, λ x h. h)

whites-all_white : (vs : List String) → whites (all_white vs) ≤ length vs
unfolding all_white
whites-all_white [] = omega arith
whites-all_white (v ∷ vs) = omega (arith, whites-put v white (all_white vs), whites-all_white vs)

pub lacks-all_white : (v : String) (vs : List String) → lacks v (all_white vs) ≡ not (mem v vs)
unfolding all_white dict_get
lacks-all_white v [] = refl
lacks-all_white v (x ∷ xs) =
    ground (arith, dict_get-dict_put v x white (all_white xs), lacks-all_white v xs)

-- When every dependency of a task is the id of a task, and Python allows at least as many nested
-- calls of `dfs` as there are ids, the search for cycles ends with or without a cycle: it raises
-- neither RecursionError nor KeyError.
pub find_cycle_returns :
    (depth : ℕ) (tasks : List Task) (all_ids : List String)
    → ((u v : String) → mem v (adj tasks u) ≡ true → mem v all_ids ≡ true)
    → length all_ids ≤ depth
    → (find_cycle depth tasks all_ids ≢ too_deep) × (find_cycle depth tasks all_ids ≢ key_error)
unfolding find_cycle
find_cycle_returns depth tasks all_ids known enough =
    let s : Search = record { color = all_white all_ids; path = [] } in
    let few : whites s.color ≤ depth = omega (arith, whites-all_white all_ids, enough) in
    let fine =
      search_all-IsFine tasks depth all_ids s few
        λ u v m. ground (arith, lacks-all_white v all_ids, known u v m) in
    ((λ e. subst (IsFine s) e fine tt), λ e. subst (IsFine s) e fine tt)
