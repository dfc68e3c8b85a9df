-- ===== src/Project/Dependency/Visits.antt =====
-- The visits of src/project/dependency.rs to the entries of the graph.
use apex_exec.Prelude.{
  ℕ, ◌+◌, ◌≤◌, ◌<◌, ◌≡◌, sym, ◌⊎◌, inl, inr, true, false, not, ◌&&◌, List, [], ◌∷◌, ◌++◌, length,
  arith, if◌then◌else◌, Bool-cases, length-append, and_parts, not-true,
}
use apex_exec.Prelude.Map.{Map, Eq, contains, beq_refl}
use apex_exec.Project.Dependency.{visit_entry, visit_entries}

module _ {P : Type 0} ⦃e : Eq P⦄ where
  -- The graph has an entry for the path with the dependencies.
  pub data HasEdge (path : P) (dependencies : List P) : Map P (List P) → Type 0 where
    here : {m : Map P (List P)} → HasEdge path dependencies ((path, dependencies) ∷ m)
    there :
        {m : Map P (List P)} (entry : P × List P)
        → HasEdge path dependencies m
        → HasEdge path dependencies (entry ∷ m)

  -- The entries whose path was not found.
  unfoldable pub fresh : List P → Map P (List P) → ℕ
  fresh found [] = 0
  fresh found ((path, dependencies) ∷ m) = (if contains path found then 0 else 1) + fresh found m

  pub fresh-le : (found : List P) (m : Map P (List P)) → fresh found m ≤ length m
  unfolding fresh
  fresh-le found [] = omega arith
  fresh-le found ((path, ds) ∷ m) = ground (arith, fresh-le found m)

  pub fresh_more :
      (c : P) (found : List P) (m : Map P (List P)) → fresh (c ∷ found) m ≤ fresh found m
  unfolding fresh contains
  fresh_more c found [] = omega arith
  fresh_more c found ((path, ds) ∷ m) = ground (arith, fresh_more c found m)

  pub fresh-found :
      (c : P) (ds : List P) (found : List P) (m : Map P (List P))
      → HasEdge c ds m
      → contains c found ≡ false
      → fresh (c ∷ found) m < fresh found m
  unfolding fresh contains
  fresh-found c ds found _ (here {m = m}) h = ground (arith, fresh_more c found m, beq_refl c)
  fresh-found c ds found _ (there {m = m} (path, es) k) h =
      ground (arith, fresh-found c ds found m k h)

  pub contains-append_left :
      (x : P) (xs ys : List P) → contains x xs ≡ true → contains x (xs ++ ys) ≡ true
  unfolding contains
  contains-append_left x [] ys h = cc
  contains-append_left x (y ∷ xs) ys h = ground (arith, contains-append_left x xs ys)

  pub contains-append_last : (x : P) (xs : List P) → contains x (xs ++ x ∷ []) ≡ true
  unfolding contains
  contains-append_last x [] = ground (arith, beq_refl x)
  contains-append_last x (y ∷ xs) = ground (arith, contains-append_last x xs)

  pub contains-cons : (x y : P) (xs : List P) → contains x xs ≡ true → contains x (y ∷ xs) ≡ true
  unfolding contains
  contains-cons x y xs h = ground arith

  pub found-or_waiting :
      (x path : P) (result queue : List P)
      → contains x (path ∷ result) ≡ true
      → (contains x result ≡ true) ⊎ (contains x (queue ++ path ∷ []) ≡ true)
  unfolding contains
  found-or_waiting x path result queue h = elim (Bool-cases (e.beq path x)) [
    | inl q ↦
        let same = (e.beq_iff path x).0 q in inr (rw (sym same) (contains-append_last path queue))
    | inr q ↦ inl (ground arith)
  ]

  pub contains-head : (y : P) (xs : List P) → contains y (y ∷ xs) ≡ true
  unfolding contains
  contains-head y xs = ground (arith, beq_refl y)

  pub nothing_waits : (x : P) → ¬ (contains x [] ≡ true)
  unfolding contains
  nothing_waits x h = cc

  -- What one visit keeps, of the state before and the state after.
  abbrev pub Grows : Map P (List P) → List P × List P → List P × List P → Type 0
  Grows edges s t =
      ((x : P) → contains x s.0 ≡ true → contains x t.0 ≡ true)
      × ((x : P) → contains x s.1 ≡ true → contains x t.1 ≡ true)
      × ((x : P) → contains x t.0 ≡ true → (contains x s.0 ≡ true) ⊎ (contains x t.1 ≡ true))
      × (length t.1 + fresh t.0 edges ≤ length s.1 + fresh s.0 edges)

  pub visit_entry-Grows :
      (edges : Map P (List P)) (d path : P) (ds : List P) (s : List P × List P)
      → HasEdge path ds edges
      → Grows edges s (visit_entry d (path, ds) s)
  unfolding visit_entry
  visit_entry-Grows edges d path ds (result, queue) k =
      elim (Bool-cases (contains d ds && not (contains path result))) [
        | inl hit ↦ rw hit (
          λ x h. contains-cons x path result h,
          λ x h. contains-append_left x queue (path ∷ []) h,
          λ x h. found-or_waiting x path result queue h,
          omega (
            arith,
            length-append queue (path ∷ []),
            fresh-found path ds result edges k (
                not-true (contains path result)
                  (and_parts (contains d ds) (not (contains path result)) hit).1),
          ),
        )
        | inr miss ↦ rw miss (λ x h. h, λ x h. h, λ x h. inl h, omega arith)
      ]

  pub Grows-trans :
      (edges : Map P (List P)) (s t u : List P × List P)
      → Grows edges s t
      → Grows edges t u
      → Grows edges s u
  Grows-trans edges s t u (a, b, c, d) (a', b', c', d') = (
    λ x h. a' x (a x h),
    λ x h. b' x (b x h),
    λ x h. elim (c' x h) [
      | inl k ↦ elim (c x k) [ inl l ↦ inl l | inr l ↦ inr (b' x l) ]
      | inr k ↦ inr k
    ],
    omega arith,
  )

  pub visit_entries-Grows :
      (edges : Map P (List P)) (d : P) (es : Map P (List P)) (s : List P × List P)
      → ((p : P) (ds : List P) → HasEdge p ds es → HasEdge p ds edges)
      → Grows edges s (visit_entries d es s)
  unfolding visit_entries
  visit_entries-Grows edges d [] s inc = (λ x h. h, λ x h. h, λ x h. inl h, omega arith)
  visit_entries-Grows edges d ((p, ds) ∷ es) s inc =
      Grows-trans edges s (visit_entry d (p, ds) s) (visit_entries d es (visit_entry d (p, ds) s))
        (visit_entry-Grows edges d p ds s (inc p ds here))
        (visit_entries-Grows edges d es (visit_entry d (p, ds) s)
          (λ q qs k. inc q qs (there (p, ds) k)))

  pub visit_entry-hit :
      (d p : P) (ds : List P) (s : List P × List P)
      → contains d ds ≡ true
      → contains p (visit_entry d (p, ds) s).0 ≡ true
  unfolding visit_entry contains
  visit_entry-hit d p ds (result, queue) h = elim (Bool-cases (contains p result)) [
    | inl k ↦ rw h (rw k k)
    | inr k ↦ rw h (rw k (ground (arith, beq_refl p)))
  ]

  -- Every dependent of the dependency is found.
  pub visit_entries-hit :
      (d p : P) (ds : List P) (es : Map P (List P)) (s : List P × List P)
      → HasEdge p ds es
      → contains d ds ≡ true
      → contains p (visit_entries d es s).0 ≡ true
  unfolding visit_entries
  visit_entries-hit d p ds _ s (here {m = m}) h =
      (visit_entries-Grows m d m (visit_entry d (p, ds) s) (λ q qs k. k)).0 p
        (visit_entry-hit d p ds s h)
  visit_entries-hit d p ds _ s (there {m = m} entry k) h =
      visit_entries-hit d p ds m (visit_entry d entry s) k h
