-- ===== src/ParallelPlan/Acyclic.antt =====
-- The search for cycles of scripts/validate-parallel-plan.py finds a cycle exactly when there is one.
use ai_coding_workflow.Prelude.{
  ℕ, ◌≤◌, String, ◌≡◌, ◌≢◌, ◌↔◌, ◌⊎◌, refl, sym, subst, true, false, inl, inr, some, List, [], ◌∷◌,
  mem, length, arith, dict_get, lacks, dict_get-dict_put, All, All_of_mem, mem-All,
}
use ai_coding_workflow.ParallelPlan.Termination.{lacks-all_white, find_cycle_returns}
use ai_coding_workflow.ParallelPlan.Graph.{
  Task, Color, white, gray, black, Search, SearchResult, searched, cycle, key_error, too_deep, adj,
  all_white, find_cycle,
}
use ai_coding_workflow.ParallelPlan.Coloring.{
  Walk, edge, further, IsGrounded, ground_at, Ends, IsBlack, search_all-Ends,
}

only_white :
    (v : String) (vs : List String) (c : Color) → dict_get v (all_white vs) ≡ some c → c ≡ white
unfolding all_white dict_get
only_white v [] c h = cc
only_white v (x ∷ xs) c h =
    ground (arith, dict_get-dict_put v x white (all_white xs), only_white v xs c)

white≢black : white ≢ black
white≢black h = cc

white≢gray : white ≢ gray
white≢gray h = cc

module _ (tasks : List Task) where
  find_cycle-Ends :
      (depth : ℕ) (all_ids : List String)
      → Ends tasks
          (record { color = all_white all_ids; path = [] })
          (λ t. All (λ v. IsBlack tasks v t) all_ids)
          (find_cycle depth tasks all_ids)
  unfolding find_cycle
  find_cycle-Ends depth all_ids =
      search_all-Ends tasks depth all_ids (record { color = all_white all_ids; path = [] })
        (λ u e. absurd (white≢black (sym (only_white u all_ids black e))))
        (λ x e. white≢gray (sym (only_white x all_ids gray e)))
        (All_of_mem (λ v. lacks v (all_white all_ids) ≡ false) all_ids
          λ v m. ground (arith, lacks-all_white v all_ids))

  -- The first step of a walk.
  Walk-edge :
      (u w : String)
      → Walk tasks u w
      → (v : String) × (mem v (adj tasks u) ≡ true) × ((v ≡ w) ⊎ Walk tasks v w)
  Walk-edge u w (edge m) = (w, m, inl refl)
  Walk-edge u w (further {v = x} p m) =
      let (v, n, c) = Walk-edge u x p in
      elim c [
        | inl e ↦ (v, n, inr (edge (subst (λ y. mem w (adj tasks y) ≡ true) (sym e) m)))
        | inr q ↦ (v, n, inr (further q m))
      ]

  -- No walk leads from a grounded node back to it.
  IsGrounded-Walk : (u : String) → IsGrounded tasks u → ¬ Walk tasks u u
  IsGrounded-Walk u (ground_at f) p =
      let (v, m, c) = Walk-edge u u p in
      IsGrounded-Walk v (f v m) (elim c [
        | inl e ↦ edge (subst (λ y. mem v (adj tasks y) ≡ true) (sym e) m)
        | inr q ↦ further q m
      ])

  -- The node a walk ends in is a dependency.
  Walk-mem : (u v : String) → Walk tasks u v → (x : String) × (mem v (adj tasks x) ≡ true)
  Walk-mem u v (edge m) = (u, m)
  Walk-mem u v (further {v = x} p m) = (x, m)

-- A search that ends without a cycle has grounded every node.
pub find_cycle-IsGrounded :
    (depth : ℕ) (tasks : List Task) (all_ids : List String) (t : Search)
    → find_cycle depth tasks all_ids ≡ searched t
    → (v : String) → mem v all_ids ≡ true
    → IsGrounded tasks v
find_cycle-IsGrounded depth tasks all_ids t e v m =
    let s : Search = record { color = all_white all_ids; path = [] } in
    let found =
      subst (Ends tasks s (λ t. All (λ v. IsBlack tasks v t) all_ids)) e
        (find_cycle-Ends tasks depth all_ids) in
    found.0 v (mem-All (λ v. IsBlack tasks v t) v all_ids found.2 m)

module _ (depth : ℕ) (tasks : List Task) (all_ids : List String)
    (known : (u v : String) → mem v (adj tasks u) ≡ true → mem v all_ids ≡ true) where
  -- A search that ends without a cycle shows that there is none, whatever depth it was allowed.
  pub find_cycle-acyclic :
      (t : Search) → find_cycle depth tasks all_ids ≡ searched t → (v : String) → ¬ Walk tasks v v
  find_cycle-acyclic t e v p =
      let (x, m) = Walk-mem tasks v v p in
      IsGrounded-Walk tasks v (find_cycle-IsGrounded depth tasks all_ids t e v (known x v m)) p

  -- When every dependency of a task is the id of a task, and Python allows as many nested calls of
  -- `dfs` as there are ids, the search finds no cycle exactly when no walk along dependencies leads
  -- from a node back to it.
  pub find_cycle_iff :
      length all_ids ≤ depth
      → ((t : Search) × (find_cycle depth tasks all_ids ≡ searched t))
        ↔ ((v : String) → ¬ Walk tasks v v)
  find_cycle_iff enough =
      ((λ (t, e). find_cycle-acyclic t e), found_none (find_cycle depth tasks all_ids) refl)
    where
      found_none :
          (o : SearchResult)
          → find_cycle depth tasks all_ids ≡ o
          → ((v : String) → ¬ Walk tasks v v)
          → (t : Search) × (find_cycle depth tasks all_ids ≡ searched t)
      found_none (searched t) e acyclic = (t, e)
      found_none (cycle c) e acyclic =
          let (x, p) =
            subst
              (Ends tasks (record { color = all_white all_ids; path = [] })
                (λ t. All (λ v. IsBlack tasks v t) all_ids))
              e (find_cycle-Ends tasks depth all_ids) in
          absurd (acyclic x p)
      found_none key_error e acyclic =
          absurd ((find_cycle_returns depth tasks all_ids known enough).1 e)
      found_none too_deep e acyclic =
          absurd ((find_cycle_returns depth tasks all_ids known enough).0 e)
