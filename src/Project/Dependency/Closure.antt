-- ===== src/Project/Dependency/Closure.antt =====
-- The closure of src/project/dependency.rs: that it ends, and is closed under dependents.
use apex_exec.Prelude.{
  ℕ, zero, suc, ◌+◌, ◌≤◌, ◌≡◌, refl, sym, ◌⊎◌, inl, inr, Bool, true, not, ◌&&◌, some, List, [], ◌∷◌,
  ◌++◌, length, arith, Bool-cases, and_parts,
}
use apex_exec.Prelude.Map.{Map, Eq, contains}
use apex_exec.Project.Dependency.Visits.{
  HasEdge, here, there, fresh, fresh-le, contains-cons, contains-head, nothing_waits,
  visit_entries-Grows, visit_entries-hit,
}
use apex_exec.Project.Dependency.{
  DependencyGraph, visit_entry, visit_entries, drain, dependent_closure,
}

module _ {P : Type 0} ⦃e : Eq P⦄ where
  -- A file is found with each of its dependencies.
  abbrev pub IsClosed : Map P (List P) → (P → Bool) → Type 0
  IsClosed edges found =
      (path : P) (dependencies : List P) (dependency : P)
      → HasEdge path dependencies edges
      → contains dependency dependencies ≡ true
      → found dependency ≡ true
      → found path ≡ true

  -- What the loop keeps: a file that was found waits, or its dependents were found.
  abbrev Pending : Map P (List P) → List P → List P → Type 0
  Pending edges result queue =
      (d : P)
      → contains d result ≡ true
      → (contains d queue ≡ true)
        ⊎ ((p : P) (ds : List P)
            → HasEdge p ds edges
            → contains d ds ≡ true
            → contains p result ≡ true)

  head-or_tail :
      (x d : P) (queue : List P)
      → contains x (d ∷ queue) ≡ true
      → (d ≡ x) ⊎ (contains x queue ≡ true)
  unfolding contains
  head-or_tail x d queue h = elim (Bool-cases (e.beq d x)) [
    | inl q ↦ inl ((e.beq_iff d x).0 q)
    | inr q ↦ inr (ground arith)
  ]

  Pending-step :
      (edges : Map P (List P)) (d : P) (result queue : List P)
      → Pending edges result (d ∷ queue)
      → let (found, waiting) = visit_entries d edges (result, queue) in Pending edges found waiting
  Pending-step edges d result queue inv x h =
      let (a, b, c, m) = visit_entries-Grows edges d edges (result, queue) (λ q qs k. k) in
      elim (c x h) [
        | inl old ↦ elim (inv x old) [
          | inl waits ↦ elim (head-or_tail x d queue waits) [
            | inl same ↦
                inr (λ p ds k q. visit_entries-hit d p ds edges (result, queue) k (rw same q))
            | inr tail ↦ inl (b x tail)
          ]
          | inr done ↦ inr (λ p ds k q. a p (done p ds k q))
        ]
        | inr new ↦ inl new
      ]

  drain-closes :
      (fuel : ℕ) (edges : Map P (List P)) (result queue : List P)
      → length queue + fresh result edges ≤ fuel
      → Pending edges result queue
      → (r : List P) × ((drain fuel edges result queue ≡ some r)
          × ((x : P) → contains x result ≡ true → contains x r ≡ true)
          × IsClosed edges (λ x. contains x r))
  unfolding drain
  drain-closes fuel edges result [] enough inv = (
    result,
    (
      refl,
      (λ x h. h),
      λ p ds d k q h. elim (inv d h) [
        | inl waits ↦ absurd (nothing_waits d waits)
        | inr done ↦ done p ds k q
      ],
    ),
  )
  drain-closes zero edges result (d ∷ queue) enough inv = absurd (omega arith)
  drain-closes (suc fuel) edges result (d ∷ queue) enough inv =
      let grows = visit_entries-Grows edges d edges (result, queue) (λ q qs k. k) in
      let (r, (e, more, closed)) =
        drain-closes fuel edges (visit_entries d edges (result, queue)).0
          (visit_entries d edges (result, queue)).1 (omega arith)
          (Pending-step edges d result queue inv) in
      (r, (e, (λ x h. more x (grows.0 x h)), closed))

  abbrev pub IsWithin : (P → Bool) → List P → Type 0
  IsWithin s xs = (x : P) → contains x xs ≡ true → s x ≡ true

  IsWithin-cons :
      (s : P → Bool) (y : P) (xs : List P) → s y ≡ true → IsWithin s xs → IsWithin s (y ∷ xs)
  IsWithin-cons s y xs h all x k = elim (head-or_tail x y xs k) [
    | inl same ↦ rw (sym same) h
    | inr tail ↦ all x tail
  ]

  IsWithin-append :
      (s : P → Bool) (y : P) (xs : List P) → s y ≡ true → IsWithin s xs → IsWithin s (xs ++ y ∷ [])
  IsWithin-append s y [] h all = IsWithin-cons s y [] h all
  IsWithin-append s y (z ∷ xs) h all =
      IsWithin-cons s z (xs ++ y ∷ []) (all z (contains-head z xs))
        (IsWithin-append s y xs h (λ x k. all x (contains-cons x z xs k)))

  visit_entry-IsWithin :
      (s : P → Bool) (d p : P) (ds : List P) (t : List P × List P)
      → (contains d ds ≡ true → s p ≡ true)
      → IsWithin s t.0
      → IsWithin s t.1
      → IsWithin s (visit_entry d (p, ds) t).0 × IsWithin s (visit_entry d (p, ds) t).1
  unfolding visit_entry
  visit_entry-IsWithin s d p ds (result, queue) step a b =
      elim (Bool-cases (contains d ds && not (contains p result))) [
        | inl hit ↦
            let new = step (and_parts (contains d ds) (not (contains p result)) hit).0 in
            rw hit (IsWithin-cons s p result new a, IsWithin-append s p queue new b)
        | inr miss ↦ rw miss (a, b)
      ]

  visit_entries-IsWithin :
      (s : P → Bool) (d : P) (es : Map P (List P)) (t : List P × List P)
      → ((p : P) (ds : List P) → HasEdge p ds es → contains d ds ≡ true → s p ≡ true)
      → IsWithin s t.0
      → IsWithin s t.1
      → IsWithin s (visit_entries d es t).0 × IsWithin s (visit_entries d es t).1
  unfolding visit_entries
  visit_entries-IsWithin s d [] t step a b = (a, b)
  visit_entries-IsWithin s d ((p, ds) ∷ es) t step a b =
      let (a', b') = visit_entry-IsWithin s d p ds t (step p ds here) a b in
      visit_entries-IsWithin s d es (visit_entry d (p, ds) t)
        (λ q qs k. step q qs (there (p, ds) k)) a' b'

  drain-IsWithin :
      (s : P → Bool) (fuel : ℕ) (edges : Map P (List P)) (result queue r : List P)
      → IsClosed edges s
      → IsWithin s result
      → IsWithin s queue
      → drain fuel edges result queue ≡ some r
      → IsWithin s r
  unfolding drain
  drain-IsWithin s fuel edges result [] r closed a b e =
      let same : result ≡ r = cc in rw (sym same) a
  drain-IsWithin s zero edges result (d ∷ queue) r closed a b e = cc
  drain-IsWithin s (suc fuel) edges result (d ∷ queue) r closed a b e =
      let (a', b') =
        visit_entries-IsWithin s d edges (result, queue)
          (λ p ds k q. closed p ds d k q (b d (contains-head d queue))) a
          (λ x k. b x (contains-cons x d queue k)) in
      drain-IsWithin s fuel edges _ _ r closed a' b' e

  -- The closure of changed files always comes to an end, and is the least set of files that has the
  -- changed ones and, with every file, each file that the graph says depends on it.
  pub dependent_closure-IsClosed :
      (changed : List P) (graph : DependencyGraph P)
      → (r : List P) × ((dependent_closure changed graph ≡ some r)
          × IsWithin (λ x. contains x r) changed
          × IsClosed graph.edges (λ x. contains x r)
          × ((s : P → Bool) → IsClosed graph.edges s → IsWithin s changed → IsWithin s r))
  unfolding dependent_closure
  dependent_closure-IsClosed changed graph =
      let fuel = length changed + length graph.edges in
      let (r, (ends, has, closed)) =
        drain-closes fuel graph.edges changed changed (omega (arith, fresh-le changed graph.edges))
          (λ d h. inl h) in
      (
        r,
        (
          ends,
          has,
          closed,
          λ s k w. drain-IsWithin s fuel graph.edges changed changed r k w w ends,
        ),
      )
