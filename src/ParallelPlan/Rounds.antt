-- ===== src/ParallelPlan/Rounds.antt =====
-- The `while` loop of `topological_sort` of scripts/validate-parallel-plan.py, round by round.
use ai_coding_workflow.Prelude.{
  ℕ, zero, suc, ◌+◌, ◌<◌, String, ◌≡◌, refl, sym, ◌∙◌, ap, subst, Bool, true, false, Bool-cases,
  ◌&&◌, inl, inr, some, List, [], ◌∷◌, ◌++◌, map, mem, subset, str_eq, str_eq_iff, str_eq_refl,
  ◌==◌, arith, Dict, dict_get, dict_put, dict_get-dict_put, All, All_of_mem, count, count-append,
  count-mem, count-sorted, sorted, missing, missing-append, indicator,
}
use mathlib.Core.List.{append-nil, append_assoc}
use ai_coding_workflow.ParallelPlan.Tables.{adj_none}
use ai_coding_workflow.ParallelPlan.Graph.{Task, task_id, adj}
use ai_coding_workflow.ParallelPlan.Order.{
  ℤ, pos, get_list, Kahn, ordered, make_ready, release, advance, order_ready,
}

-- Every task comes after the tasks it depends on, where some are done already.
abbrev pub in_order : List String → List Task → Bool
in_order seen [] = true
in_order seen (t ∷ ts) = subset t.depends_on seen && in_order (seen ++ t.id ∷ []) ts

pub in_order-append :
    (seen : List String) (ts : List Task) (t : Task)
    → in_order seen ts ≡ true
    → subset t.depends_on (seen ++ map task_id ts) ≡ true
    → in_order seen (ts ++ t ∷ []) ≡ true
in_order-append seen [] t h s =
    let same = subst (λ (xs : List String). subset t.depends_on xs ≡ true) (append-nil seen) s in
    ground arith
in_order-append seen (u ∷ ts) t h s =
    let rest = in_order-append (seen ++ u.id ∷ []) ts t (ground arith) (
      subst (λ (xs : List String). subset t.depends_on xs ≡ true)
        (sym (append_assoc seen (u.id ∷ []) (map task_id ts))) s) in
    ground arith

pub missing-subset : (xs ys : List String) → missing xs ys ≡ 0 → subset xs ys ≡ true
missing-subset [] ys h = refl
missing-subset (x ∷ xs) ys h = ground (arith, missing-subset xs ys)

count-make_ready :
    (x c : String) (n : ℕ) (ready : List String)
    → count x (make_ready (pos n) c ready) ≡ count x ready + indicator (str_eq c x && (n == 0))
count-make_ready x c zero ready =
    count-sorted x (ready ++ c ∷ []) ∙ count-append x ready (c ∷ []) ∙ ground arith
count-make_ready x c (suc n) ready = ground arith

module _ (ids : List String) where
  -- The degrees are `deg`, and the ids of degree 0 are ready or done, once.
  abbrev pub IsPlaced : (String → ℕ) → Dict ℤ → List String → List String → Type 0
  IsPlaced deg d ready done =
      ((x : String) → mem x ids ≡ true → dict_get x d ≡ some (pos (deg x)))
      × ((x : String) → count x ready + count x done ≡ indicator (mem x ids && (deg x == 0)))

  IsPlaced-same :
      (deg deg' : String → ℕ) (d : Dict ℤ) (ready done : List String)
      → ((x : String) → deg x ≡ deg' x)
      → IsPlaced deg d ready done
      → IsPlaced deg' d ready done
  IsPlaced-same deg deg' d ready done e (g, p) = (
    (λ x m. g x m ∙ ap (λ n. some (pos n)) (e x)),
    λ x. p x ∙ ap (λ n. indicator (mem x ids && (n == 0))) (e x),
  )

  -- One child released: its degree falls by one, and it is ready when the degree is 0.
  release_one-IsPlaced :
      (c : String) (cs : List String) (base : String → ℕ) (d : Dict ℤ) (ready done : List String)
      → mem c ids ≡ true
      → IsPlaced (λ x. base x + count x (c ∷ cs)) d ready done
      → IsPlaced
          (λ x. base x + count x cs)
          (dict_put c (pos (base c + count c cs)) d)
          (make_ready (pos (base c + count c cs)) c ready)
          done
  release_one-IsPlaced c cs base d ready done m (g, p) = (degrees, placed)
    where
      degrees :
          (x : String)
          → mem x ids ≡ true
          → dict_get x (dict_put c (pos (base c + count c cs)) d) ≡ some (pos (base x + count x cs))
      degrees x i =
          ground (arith, dict_get-dict_put x c (pos (base c + count c cs)) d, g x i, str_eq_iff c x)

      placed :
          (x : String)
          → count x (make_ready (pos (base c + count c cs)) c ready) + count x done
            ≡ indicator (mem x ids && ((base x + count x cs) == 0))
      placed x = ground (
        arith,
        count-make_ready x c (base c + count c cs) ready,
        p x,
        str_eq_iff c x,
        str_eq_refl c,
        m,
      )

  -- The loop over the children makes every degree what it is without them.
  release-IsPlaced :
      (cs : List String) (base : String → ℕ) (d : Dict ℤ) (ready done : List String)
      → All (λ c. mem c ids ≡ true) cs
      → IsPlaced (λ x. base x + count x cs) d ready done
      → (d' : Dict ℤ) × (ready' : List String) × (release cs d ready ≡ some (d', ready'))
        × IsPlaced base d' ready' done
  unfolding release
  release-IsPlaced [] base d ready done a p =
      (d, ready, refl, IsPlaced-same (λ x. base x + 0) base d ready done (λ x. omega arith) p)
  release-IsPlaced (c ∷ cs) base d ready done a p =
      let n = base c + count c cs in
      let (d', ready', e, q) =
        release-IsPlaced cs base (dict_put c (pos n) d) (make_ready (pos n) c ready) done a.1
          (release_one-IsPlaced c cs base d ready done a.0 p) in
      (d', ready', rw (p.0 c a.0 ∙ ap (λ m. some (pos m)) (degree n)) e, q)
    where
      degree : (n : ℕ) → base c + count c (c ∷ cs) ≡ suc (base c + count c cs)
      degree n = ground (arith, str_eq_refl c)

-- The state between two rounds.
abbrev pub IsRound : List Task → Kahn → Type 0
IsRound tasks s =
    let done = map task_id s.result in
    IsPlaced (map task_id tasks) (λ x. missing (adj tasks x) done) s.in_degree s.ready done
    × (in_order [] s.result ≡ true)

pub map-append :
    (ts : List Task) (t : Task) → map task_id (ts ++ t ∷ []) ≡ map task_id ts ++ t.id ∷ []
map-append [] t = refl
map-append (u ∷ ts) t = rw (map-append ts t)

-- What the loop reads of the tables.
module _ (tasks : List Task) (by_id : Dict Task) (children : Dict (List String))
    (found : (x : String)
      → mem x (map task_id tasks) ≡ true
      → (t : Task) × (dict_get x by_id ≡ some t) × (t.id ≡ x) × (t.depends_on ≡ adj tasks x))
    (counted : (x u : String) → count x (get_list u children) ≡ count u (adj tasks x)) where
  -- The children of a task are tasks.
  children-ids :
      (tid : String) → All (λ c. mem c (map task_id tasks) ≡ true) (sorted (get_list tid children))
  children-ids tid =
      All_of_mem (λ c. mem c (map task_id tasks) ≡ true) (sorted (get_list tid children))
        λ c m. elim (Bool-cases (mem c (map task_id tasks))) [
          | inl e ↦ e
          | inr e ↦ ground (
            arith,
            count-mem c (sorted (get_list tid children)),
            count-sorted c (get_list tid children),
            counted c tid,
            ap (count tid) (adj_none c tasks e),
          )
        ]

  -- A task that is popped is released of what its children miss.
  popped-IsPlaced :
      (tid : String) (rest : List String) (d : Dict ℤ) (done : List String)
      → IsPlaced (map task_id tasks) (λ x. missing (adj tasks x) done) d (tid ∷ rest) done
      → mem tid done ≡ false
      → IsPlaced
          (map task_id tasks)
          (λ x. missing (adj tasks x) (done ++ tid ∷ []) + count x (sorted (get_list tid children)))
          d
          rest
          (done ++ tid ∷ [])
  popped-IsPlaced tid rest d done p new =
      IsPlaced-same (map task_id tasks) (λ x. missing (adj tasks x) done) _ d rest
        (done ++ tid ∷ [])
        (λ x. omega (
          arith,
          missing-append tid (adj tasks x) done new,
          count-sorted x (get_list tid children),
          counted x tid,
        ))
        (p.0, λ x. sym (omega (arith, count-append x done (tid ∷ []))) ∙ p.1 x)

  advance-IsRound :
      (tid : String) (rest : List String) (d : Dict ℤ) (result : List Task)
      → IsRound tasks (record { in_degree = d; ready = tid ∷ rest; result = result })
      → (s : Kahn) × (advance by_id children tid rest
            (record { in_degree = d; ready = tid ∷ rest; result = result })
          ≡ some s)
        × IsRound tasks s
        × (map task_id s.result ≡ map task_id result ++ tid ∷ [])
        × (mem tid (map task_id tasks) ≡ true)
        × (mem tid (map task_id result) ≡ false)
  advance-IsRound tid rest d result (p, o) =
      let done = map task_id result in
      let known : mem tid (map task_id tasks) ≡ true = ground (arith, p.1 tid, str_eq_refl tid) in
      let ready : missing (adj tasks tid) done ≡ 0 = ground (arith, p.1 tid, str_eq_refl tid) in
      let new : mem tid done ≡ false =
        ground (arith, p.1 tid, str_eq_refl tid, count-mem tid done) in
      let (t, f, i, a) = found tid known in
      let (d', ready', e, q) =
        release-IsPlaced (map task_id tasks) (sorted (get_list tid children))
          (λ x. missing (adj tasks x) (done ++ tid ∷ [])) d rest (done ++ tid ∷ [])
          (children-ids tid) (popped-IsPlaced tid rest d done p new) in
      let named : map task_id (result ++ t ∷ []) ≡ done ++ tid ∷ [] =
        map-append result t ∙ ap (λ x. done ++ x ∷ []) i in
      let state : Kahn = record { in_degree = d'; ready = ready'; result = result ++ t ∷ [] } in
      (
        state,
        rw (f, e) refl,
        (
          subst
              (λ done.
                IsPlaced (map task_id tasks) (λ x. missing (adj tasks x) done) d' ready' done)
              (sym named) q,
          in_order-append [] result t o (
              subst (λ deps. subset deps done ≡ true) (sym a)
                (missing-subset (adj tasks tid) done ready)),
        ),
        named,
        known,
        new,
      )

  -- With one more round of fuel than there are tasks to place, the loop ends, in order, when nothing is ready.
  pub order_ready-IsRound :
      (fuel : ℕ) (d : Dict ℤ) (ready : List String) (result : List Task)
      → missing (map task_id tasks) (map task_id result) < fuel
      → IsRound tasks (record { in_degree = d; ready = ready; result = result })
      → (s : Kahn) × (order_ready by_id children fuel
            (record { in_degree = d; ready = ready; result = result })
          ≡ ordered s.result)
        × (s.ready ≡ [])
        × IsRound tasks s
  unfolding order_ready
  order_ready-IsRound zero d ready result f r = absurd (omega arith)
  order_ready-IsRound (suc fuel) d [] result f r =
      (record { in_degree = d; ready = []; result = result }, refl, refl, r)
  order_ready-IsRound (suc fuel) d (tid ∷ rest) result f r =
      let (s, e, r', named, known, new) = advance-IsRound tid rest d result r in
      let fewer = missing-append tid (map task_id tasks) (map task_id result) new in
      let (s', e', n, q) =
        order_ready-IsRound fuel s.in_degree s.ready s.result
          (rw named (ground (arith, fewer, count-mem tid (map task_id tasks)))) r' in
      (s', rw e e', n, q)
