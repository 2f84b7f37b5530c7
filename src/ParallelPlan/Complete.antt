-- ===== src/ParallelPlan/Complete.antt =====
-- `topological_sort` of scripts/validate-parallel-plan.py on the plans its validation lets pass.
use ai_coding_workflow.Prelude.{
  ℕ, suc, some, ◌≤◌, String, ◌≡◌, refl, sym, ◌∙◌, ap, true, ◌&&◌, List, [], ◌∷◌, map, mem, unique,
  length, ◌==◌, arith, dict_get, count, count-mem, count-sorted, count-unique, sorted, missing,
  missing_none, mem-missing, indicator,
}
use ai_coding_workflow.ParallelPlan.Graph.{Task, task_id, adj, Search, searched, find_cycle}
use ai_coding_workflow.ParallelPlan.Order.{
  pos, get_list, Kahn, ordered, task_by_id, in_degrees, no_children, add_children, zero_degrees,
  topological_sort,
}
use ai_coding_workflow.ParallelPlan.Tables.{
  task_by_id_found, dict_get-in_degrees, count-zero_degrees, get_list-no_children,
  count-add_children,
}
use ai_coding_workflow.ParallelPlan.Coloring.{IsGrounded, ground_at}
use ai_coding_workflow.ParallelPlan.Acyclic.{find_cycle-IsGrounded}
use ai_coding_workflow.ParallelPlan.Rounds.{in_order, IsRound, order_ready-IsRound}

length-map : (ts : List Task) → length (map task_id ts) ≡ length ts
length-map [] = refl
length-map (t ∷ ts) = rw (length-map ts)

-- The state before the first round.
start-IsRound :
    (tasks : List Task)
    → unique (map task_id tasks) ≡ true
    → IsRound tasks (record {
      in_degree = in_degrees tasks [];
      ready = sorted (zero_degrees (in_degrees tasks []));
      result = [];
    })
unfolding zero_degrees dict_get
start-IsRound tasks u = (
  (
    (λ x m.
        dict_get-in_degrees x tasks [] u m
        ∙ ap (λ n. some (pos n)) (sym (missing_none (adj tasks x)))),
    λ x. omega (arith, count-sorted x (zero_degrees (in_degrees tasks []))) ∙ counted x,
  ),
  refl,
)
  where
    counted :
        (x : String)
        → count x (zero_degrees (in_degrees tasks []))
          ≡ indicator (mem x (map task_id tasks) && (missing (adj tasks x) [] == 0))
    counted x =
        omega (arith, count-zero_degrees x tasks [] u (λ y m. refl))
        ∙ ap (λ n. indicator (mem x (map task_id tasks) && (n == 0)))
            (sym (missing_none (adj tasks x)))

no_child : (x v : String) → count x (get_list v []) ≡ 0
unfolding dict_get
no_child x v = refl

sort-IsRound :
    (tasks : List Task)
    → unique (map task_id tasks) ≡ true
    → (s : Kahn) × (topological_sort tasks ≡ ordered s.result) × (s.ready ≡ []) × IsRound tasks s
unfolding topological_sort
sort-IsRound tasks u =
    order_ready-IsRound tasks (task_by_id tasks []) (add_children tasks (no_children tasks []))
      (λ x m. task_by_id_found x tasks [] u m)
      (λ x v. omega (
        arith,
        count-add_children x v tasks (no_children tasks []) u,
        ap (count x) (get_list-no_children v tasks []),
        no_child x v,
      ))
      (suc (length tasks)) (in_degrees tasks []) (sorted (zero_degrees (in_degrees tasks []))) []
      (omega (arith, missing_none (map task_id tasks), length-map tasks)) (start-IsRound tasks u)

-- When nothing is ready, a node whose walks all end is done.
IsGrounded-count :
    (tasks : List Task) (s : Kahn)
    → ((u v : String) → mem v (adj tasks u) ≡ true → mem v (map task_id tasks) ≡ true)
    → s.ready ≡ []
    → IsRound tasks s
    → (x : String) → IsGrounded tasks x
    → mem x (map task_id tasks) ≡ true
    → mem x (map task_id s.result) ≡ true
IsGrounded-count tasks s known n r x (ground_at f) m =
    let done =
      mem-missing (adj tasks x) (map task_id s.result)
        λ v e. IsGrounded-count tasks s known n r v (f v e) (known x v e) in
    ground (arith, r.0.1 x, ap (count x) n, count-mem x (map task_id s.result))

-- When ids are distinct, `topological_sort` returns: no look-up fails and no fuel runs out. In its
-- result every task comes after the tasks it depends on, and no id comes twice or from elsewhere.
pub topological_sort_orders :
    (tasks : List Task)
    → unique (map task_id tasks) ≡ true
    → (result : List Task) × (topological_sort tasks ≡ ordered result)
      × (in_order [] result ≡ true)
      × ((x : String) → count x (map task_id result) ≤ count x (map task_id tasks))
topological_sort_orders tasks u =
    let (s, e, n, r) = sort-IsRound tasks u in
    (
      s.result,
      e,
      r.1,
      λ x. ground (arith, r.0.1 x, ap (count x) n, count-unique x (map task_id tasks) u),
    )

-- When ids are distinct, every dependency is a task's id and the search over all ids finds no cycle,
-- `topological_sort` returns every task's id exactly once, after those it depends on.
pub topological_sort_complete :
    (depth : ℕ) (tasks : List Task) (all_ids : List String) (t : Search)
    → unique (map task_id tasks) ≡ true
    → ((u v : String) → mem v (adj tasks u) ≡ true → mem v (map task_id tasks) ≡ true)
    → ((x : String) → mem x (map task_id tasks) ≡ true → mem x all_ids ≡ true)
    → find_cycle depth tasks all_ids ≡ searched t
    → (result : List Task) × (topological_sort tasks ≡ ordered result)
      × (in_order [] result ≡ true)
      × ((x : String) → count x (map task_id result) ≡ count x (map task_id tasks))
topological_sort_complete depth tasks all_ids t u known all_of f =
    let (s, e, n, r) = sort-IsRound tasks u in
    (
      s.result,
      e,
      r.1,
      λ x.
          let placed : mem x (map task_id tasks) ≡ true → mem x (map task_id s.result) ≡ true = λ m.
            IsGrounded-count tasks s known n r x
              (find_cycle-IsGrounded depth tasks all_ids t f x (all_of x m)) m in
          ground (
            arith,
            r.0.1 x,
            ap (count x) n,
            count-unique x (map task_id tasks) u,
            placed,
            count-mem x (map task_id s.result),
          ),
    )
