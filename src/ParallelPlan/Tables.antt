-- ===== src/ParallelPlan/Tables.antt =====
-- The dicts that `topological_sort` of scripts/validate-parallel-plan.py builds before its loop.
use ai_coding_workflow.Prelude.{
  ℕ, zero, suc, ◌+◌, String, ◌≡◌, refl, ◌∙◌, ap, true, false, ◌&&◌, inl, inr, some, List, [], ◌∷◌,
  ◌++◌, map, mem, unique, length, str_eq, str_eq_iff, str_eq_refl, str_cases, if◌then◌else◌, ◌==◌,
  arith, Dict, dict_get, dict_put, lacks, dict_get-dict_put, dict_put_new, count, count-append,
  indicator,
}
use ai_coding_workflow.ParallelPlan.Graph.{Task, task_id, adj}
use ai_coding_workflow.ParallelPlan.Order.{
  ℤ, pos, get_list, task_by_id, in_degrees, no_children, add_child, add_children, zero_degrees,
}

pub adj_none : (x : String) (ts : List Task) → mem x (map task_id ts) ≡ false → adj ts x ≡ []
unfolding adj
adj_none x [] h = refl
adj_none x (t ∷ ts) h = ground (arith, adj_none x ts)

task_by_id_other :
    (x : String) (ts : List Task) (d : Dict Task)
    → mem x (map task_id ts) ≡ false
    → dict_get x (task_by_id ts d) ≡ dict_get x d
unfolding task_by_id
task_by_id_other x [] d h = refl
task_by_id_other x (t ∷ ts) d h =
    ground (arith, task_by_id_other x ts (dict_put t.id t d), dict_get-dict_put x t.id t d)

-- Where ids are distinct, the task of an id is found with its id and its dependencies.
pub task_by_id_found :
    (x : String) (ts : List Task) (d : Dict Task)
    → unique (map task_id ts) ≡ true
    → mem x (map task_id ts) ≡ true
    → (t : Task) × (dict_get x (task_by_id ts d) ≡ some t) × (t.id ≡ x) × (t.depends_on ≡ adj ts x)
unfolding task_by_id adj
task_by_id_found x [] d u m = cc
task_by_id_found x (t ∷ ts) d u m = elim (str_cases t.id x) [
  | inl e ↦ (
    t,
    ground (
      arith,
      task_by_id_other x ts (dict_put t.id t d),
      dict_get-dict_put x t.id t d,
      str_eq_refl x,
    ),
    e,
    ground (arith, str_eq_refl x),
  )
  | inr e ↦
      let (t', f, i, a) = task_by_id_found x ts (dict_put t.id t d) (ground arith) (ground arith) in
      (t', f, i, ground arith)
]

in_degrees_other :
    (x : String) (ts : List Task) (d : Dict ℤ)
    → mem x (map task_id ts) ≡ false
    → dict_get x (in_degrees ts d) ≡ dict_get x d
unfolding in_degrees
in_degrees_other x [] d h = refl
in_degrees_other x (t ∷ ts) d h = ground (
  arith,
  in_degrees_other x ts (dict_put t.id (pos (length t.depends_on)) d),
  dict_get-dict_put x t.id (pos (length t.depends_on)) d,
)

pub dict_get-in_degrees :
    (x : String) (ts : List Task) (d : Dict ℤ)
    → unique (map task_id ts) ≡ true
    → mem x (map task_id ts) ≡ true
    → dict_get x (in_degrees ts d) ≡ some (pos (length (adj ts x)))
unfolding in_degrees adj
dict_get-in_degrees x [] d u m = cc
dict_get-in_degrees x (t ∷ ts) d u m =
    let n = pos (length t.depends_on) in
    ground (
      arith,
      in_degrees_other x ts (dict_put t.id n d),
      dict_get-dict_put x t.id n d,
      dict_get-in_degrees x ts (dict_put t.id n d),
      str_eq_iff t.id x,
      str_eq_refl x,
    )

zero_degrees-append :
    (x : String) (d e : Dict ℤ)
    → count x (zero_degrees (d ++ e)) ≡ count x (zero_degrees d) + count x (zero_degrees e)
unfolding zero_degrees
zero_degrees-append x [] e = omega arith
zero_degrees-append x ((k, n) ∷ d) e = ground (arith, zero_degrees-append x d e)

count-zero_one :
    (x k : String) (n : ℕ)
    → count x (zero_degrees ((k, pos n) ∷ [])) ≡ indicator (str_eq k x && (n == 0))
unfolding zero_degrees
count-zero_one x k zero = ground arith
count-zero_one x k (suc n) = ground arith

-- An id is ready at the start when it is a task's without dependencies.
pub count-zero_degrees :
    (x : String) (ts : List Task) (d : Dict ℤ)
    → unique (map task_id ts) ≡ true
    → ((y : String) → mem y (map task_id ts) ≡ true → lacks y d ≡ true)
    → count x (zero_degrees (in_degrees ts d))
      ≡ count x (zero_degrees d) + indicator (mem x (map task_id ts) && (length (adj ts x) == 0))
unfolding in_degrees adj
count-zero_degrees x [] d u l = omega arith
count-zero_degrees x (t ∷ ts) d u l =
    let n = pos (length t.depends_on) in
    ground (
      arith,
      added,
      str_eq_iff t.id x,
      count-zero_degrees x ts (dict_put t.id n d) (ground arith)
          λ y m. ground (arith, dict_get-dict_put y t.id n d, l y, str_eq_iff t.id y),
    )
  where
    added :
        count x (zero_degrees (dict_put t.id (pos (length t.depends_on)) d))
        ≡ count x (zero_degrees d) + indicator (str_eq t.id x && (length t.depends_on == 0))
    added =
        ap (λ e. count x (zero_degrees e))
          (dict_put_new t.id (pos (length t.depends_on)) d
            (l t.id (ground (arith, str_eq_refl t.id))))
        ∙ zero_degrees-append x d _
        ∙ ap (λ n. count x (zero_degrees d) + n) (count-zero_one x t.id (length t.depends_on))

pub get_list-no_children :
    (x : String) (ts : List Task) (d : Dict (List String))
    → get_list x (no_children ts d) ≡ get_list x d
unfolding no_children
get_list-no_children x [] d = refl
get_list-no_children x (t ∷ ts) d = ground (
  arith,
  get_list-no_children x ts (dict_put t.id (get_list t.id d) d),
  dict_get-dict_put x t.id (get_list t.id d) d,
  str_eq_iff t.id x,
)

get_list-dict_put :
    (x k : String) (xs : List String) (d : Dict (List String))
    → get_list x (dict_put k xs d) ≡ (if str_eq k x then xs else get_list x d)
get_list-dict_put x k xs d = ground (arith, dict_get-dict_put x k xs d)

count-add_child :
    (x u tid : String) (deps : List String) (d : Dict (List String))
    → count x (get_list u (add_child tid deps d))
      ≡ count x (get_list u d) + (if str_eq tid x then count u deps else 0)
unfolding add_child
count-add_child x u tid [] d = ground arith
count-add_child x u tid (dep ∷ deps) d =
    let grown = get_list dep d ++ tid ∷ [] in
    ground (
      arith,
      count-add_child x u tid deps (dict_put dep grown d),
      get_list-dict_put u dep grown d,
      count-append x (get_list dep d) (tid ∷ []),
      str_eq_iff dep u,
    )

-- A task is a child of a node as often as it depends on it.
pub count-add_children :
    (x u : String) (ts : List Task) (d : Dict (List String))
    → unique (map task_id ts) ≡ true
    → count x (get_list u (add_children ts d)) ≡ count x (get_list u d) + count u (adj ts x)
unfolding add_children adj
count-add_children x u [] d h = omega arith
count-add_children x u (t ∷ ts) d h =
    let d' = add_child t.id t.depends_on d in
    ground (
      arith,
      count-add_children x u ts d',
      count-add_child x u t.id t.depends_on d,
      str_eq_iff t.id x,
      adj_none x ts,
    )
