-- ===== src/ParallelPlan/Coloring.antt =====
-- What `dfs` and the loop over the ids of scripts/validate-parallel-plan.py leave behind.
use ai_coding_workflow.Prelude.{
  ℕ, zero, suc, String, ◌≡◌, ◌≢◌, refl, subst, true, false, inl, inr, Option, none, some, List, [],
  ◌∷◌, mem, str_eq_iff, str_eq_refl, str_cases, if◌then◌else◌, arith, dict_get, lacks,
  dict_get-dict_put, All, All-map, All_of_mem, mem-All,
}
use ai_coding_workflow.ParallelPlan.Termination.{lacks-put}
use ai_coding_workflow.ParallelPlan.Graph.{
  Task, Color, white, gray, black, Search, SearchResult, searched, cycle, key_error, too_deep, adj,
  enter, leave, after_search, visit, visit_all, dfs, is_white, search_all,
}

-- A walk along dependencies, of one step at least.
pub data Walk (tasks : List Task) : String → String → Type 0 where
  edge : {u v : String} → mem v (adj tasks u) ≡ true → Walk tasks u v
  further : {u v w : String} → Walk tasks u v → mem w (adj tasks v) ≡ true → Walk tasks u w

-- A node whose dependencies all end: no walk from it goes on for ever.
pub data IsGrounded (tasks : List Task) : String → Type 0 where
  ground_at :
      {u : String}
      → ((v : String) → mem v (adj tasks u) ≡ true → IsGrounded tasks v)
      → IsGrounded tasks u

module _ (tasks : List Task) where
  -- The nodes that are done are grounded.
  abbrev pub IsSound : Search → Type 0
  IsSound s = (u : String) → dict_get u s.color ≡ some black → IsGrounded tasks u

  -- What stays from one point of the search to a later one.
  abbrev pub IsLater : Search → Search → Type 0
  IsLater s t =
      ((x : String) → dict_get x s.color ≡ some black → dict_get x t.color ≡ some black)
      × ((x : String) → dict_get x s.color ≡ some gray → dict_get x t.color ≡ some gray)
      × ((x : String) → dict_get x t.color ≡ some gray → dict_get x s.color ≡ some gray)
      × ((x : String) → lacks x s.color ≡ false → lacks x t.color ≡ false)

  IsLater-trans : (s t u : Search) → IsLater s t → IsLater t u → IsLater s u
  IsLater-trans s t u (b, g, h, k) (b', g', h', k') =
      ((λ x e. b' x (b x e)), (λ x e. g' x (g x e)), (λ x e. h x (h' x e)), λ x e. k' x (k x e))

  IsLater-refl : (s : Search) → IsLater s s
  IsLater-refl s = ((λ x e. e), (λ x e. e), (λ x e. e), λ x e. e)

  -- A part of the search that ends with `P`, or with a real cycle.
  abbrev pub Ends : Search → (Search → Type 0) → SearchResult → Type 0
  Ends s P (searched t) = IsSound t × IsLater s t × P t
  Ends s P (cycle c) = (x : String) × Walk tasks x x
  Ends s P key_error = Unit
  Ends s P too_deep = Unit

  Ends-after_search :
      (s : Search) (P Q : Search → Type 0) (o : SearchResult) (next : Search → SearchResult)
      → Ends s P o
      → ((t : Search) → IsSound t → IsLater s t → P t → Ends t Q (next t))
      → Ends s Q (after_search o next)
  Ends-after_search s P Q (searched t) next (i, l, p) g = later (next t) (g t i l p)
    where
      later : (o : SearchResult) → Ends t Q o → Ends s Q o
      later (searched u) (j, m, q) = (j, IsLater-trans s t u l m, q)
      later (cycle c) h = h
      later key_error h = tt
      later too_deep h = tt
  Ends-after_search s P Q (cycle c) next h g = h
  Ends-after_search s P Q key_error next h g = tt
  Ends-after_search s P Q too_deep next h g = tt

  Ends-map :
      (s : Search) (P Q : Search → Type 0) (o : SearchResult)
      → Ends s P o
      → ((t : Search) → IsLater s t → P t → Q t)
      → Ends s Q o
  Ends-map s P Q (searched t) (i, l, p) f = (i, l, f t l p)
  Ends-map s P Q (cycle c) h f = h
  Ends-map s P Q key_error h f = tt
  Ends-map s P Q too_deep h f = tt

  -- Every gray node leads to the node.
  abbrev Leads : Search → String → Type 0
  Leads s v = (x : String) → dict_get x s.color ≡ some gray → Walk tasks x v

  abbrev pub IsBlack : String → Search → Type 0
  IsBlack v s = dict_get v s.color ≡ some black

  -- The loop over neighbors that all gray nodes lead to leaves them black, or finds a cycle.
  visit_all-Ends :
      (rec : String → Search → SearchResult)
      → ((v : String) (s : Search)
          → dict_get v s.color ≡ some white
          → IsSound s
          → Leads s v
          → Ends s (IsBlack v) (rec v s))
      → (vs : List String) (s : Search) → IsSound s
      → All (Leads s) vs
      → Ends s (λ t. All (λ v. IsBlack v t) vs) (visit_all rec vs s)
  unfolding visit_all
  visit_all-Ends rec go [] s i l = (i, IsLater-refl s, tt)
  visit_all-Ends rec go (v ∷ vs) s i l =
      Ends-after_search s (IsBlack v) (λ t. All (λ w. IsBlack w t) (v ∷ vs))
        (visit rec (dict_get v s.color) v s) (visit_all rec vs) (one (dict_get v s.color) refl)
        λ t j m b.
          Ends-map t (λ u. All (λ w. IsBlack w u) vs) (λ u. All (λ w. IsBlack w u) (v ∷ vs))
            (visit_all rec vs t)
            (visit_all-Ends rec go vs t j (All-map (λ w f x g. f x (m.2 x g)) vs l.1))
            λ u n a. (n.0 v b, a)
    where
      one : (o : Option Color) → dict_get v s.color ≡ o → Ends s (IsBlack v) (visit rec o v s)
      one none e = tt
      one (some white) e = go v s e i l.0
      one (some gray) e = (v, l.0 v e)
      one (some black) e = (i, IsLater-refl s, e)

  enter-IsSound : (node : String) (s : Search) → IsSound s → IsSound (enter node s)
  enter-IsSound node s i u e = i u (ground (arith, dict_get-dict_put u node gray s.color))

  -- While a node is entered, it and all that lead to it lead to its dependencies.
  enter-Leads :
      (node : String) (s : Search) (v : String)
      → Leads s node
      → mem v (adj tasks node) ≡ true
      → Leads (enter node s) v
  enter-Leads node s v l m x e = elim (str_cases node x) [
    | inl same ↦ edge (subst (λ y. mem v (adj tasks y) ≡ true) same m)
    | inr other ↦ further (l x (ground (arith, dict_get-dict_put x node gray s.color))) m
  ]

  -- Leaving a node whose dependencies are black.
  leave-Ends :
      (node : String) (s t : Search)
      → dict_get node s.color ≡ some white
      → IsSound t
      → IsLater (enter node s) t
      → All (λ v. IsBlack v t) (adj tasks node)
      → Ends s (IsBlack node) (searched (leave node t))
  leave-Ends node s t w i (b, g, h, k) a = (sound, (blacks, grays, grays', kept), here)
    where
      here : IsBlack node (leave node t)
      here = ground (arith, dict_get-dict_put node node black t.color, str_eq_refl node)

      sound : IsSound (leave node t)
      sound u e = elim (str_cases node u) [
        | inl same ↦
            subst (IsGrounded tasks) same
              (ground_at λ v m. i v (mem-All (λ v. IsBlack v t) v (adj tasks node) a m))
        | inr other ↦ i u (ground (arith, dict_get-dict_put u node black t.color))
      ]

      blacks : (x : String) → IsBlack x s → IsBlack x (leave node t)
      blacks x e = ground (
        arith,
        dict_get-dict_put x node black t.color,
        dict_get-dict_put x node gray s.color,
        str_eq_iff node x,
        b x,
      )

      grays :
          (x : String)
          → dict_get x s.color ≡ some gray
          → dict_get x (leave node t).color ≡ some gray
      grays x e = ground (
        arith,
        dict_get-dict_put x node black t.color,
        dict_get-dict_put x node gray s.color,
        str_eq_iff node x,
        g x,
      )

      grays' :
          (x : String)
          → dict_get x (leave node t).color ≡ some gray
          → dict_get x s.color ≡ some gray
      grays' x e = ground (
        arith,
        dict_get-dict_put x node black t.color,
        dict_get-dict_put x node gray s.color,
        h x,
      )

      kept : (x : String) → lacks x s.color ≡ false → lacks x (leave node t).color ≡ false
      kept x e = lacks-put x node black t.color (k x (lacks-put x node gray s.color e))

  dfs-Ends :
      (fuel : ℕ) (node : String) (s : Search)
      → dict_get node s.color ≡ some white
      → IsSound s
      → Leads s node
      → Ends s (IsBlack node) (dfs tasks fuel node s)
  unfolding dfs
  dfs-Ends zero node s w i l = tt
  dfs-Ends (suc fuel) node s w i l =
      finish (visit_all (dfs tasks fuel) (adj tasks node) (enter node s)) (
        visit_all-Ends (dfs tasks fuel) (dfs-Ends fuel) (adj tasks node) (enter node s)
          (enter-IsSound node s i)
          (All_of_mem (Leads (enter node s)) (adj tasks node) (λ v. enter-Leads node s v l)))
    where
      finish :
          (o : SearchResult)
          → Ends (enter node s) (λ t. All (λ v. IsBlack v t) (adj tasks node)) o
          → Ends s (IsBlack node) (after_search o λ t. searched (leave node t))
      finish (searched t) (j, m, a) = leave-Ends node s t w j m a
      finish (cycle c) h = h
      finish key_error h = tt
      finish too_deep h = tt

  -- The loop over the ids, entered with no node gray.
  pub search_all-Ends :
      (fuel : ℕ) (vs : List String) (s : Search)
      → IsSound s
      → ((x : String) → dict_get x s.color ≢ some gray)
      → All (λ v. lacks v s.color ≡ false) vs
      → Ends s (λ t. All (λ v. IsBlack v t) vs) (search_all tasks fuel vs s)
  unfolding search_all
  search_all-Ends fuel [] s i n a = (i, IsLater-refl s, tt)
  search_all-Ends fuel (v ∷ vs) s i n a =
      Ends-after_search s (IsBlack v) (λ t. All (λ w. IsBlack w t) (v ∷ vs)) _
        (search_all tasks fuel vs) (one (dict_get v s.color) refl)
        λ t j m b.
          Ends-map t (λ u. All (λ w. IsBlack w u) vs) (λ u. All (λ w. IsBlack w u) (v ∷ vs))
            (search_all tasks fuel vs t)
            (search_all-Ends fuel vs t j (λ x e. n x (m.2 x e)) (All-map (λ w. m.3 w) vs a.1))
            λ u p c. (p.0 v b, c)
    where
      one :
          (o : Option Color)
          → dict_get v s.color ≡ o
          → Ends s (IsBlack v) (if is_white o then dfs tasks fuel v s else searched s)
      one none e = absurd (ground (arith, a.0))
      one (some white) e = dfs-Ends fuel v s e i λ x g. absurd (n x g)
      one (some gray) e = absurd (n v e)
      one (some black) e = (i, IsLater-refl s, e)
