-- ===== src/Project/Dependency.antt =====
-- src/project/dependency.rs: the dependency graph and the closure of changed files. Paths are any
-- keys with an equality.
pub mod Visits
pub mod Closure
mod Examples
use apex_exec.Prelude.{
  ℕ, zero, suc, ◌+◌, Bool, true, false, not, ◌&&◌, Option, none, some, List, [], ◌∷◌, ◌++◌, length,
  if◌then◌else◌,
}
use apex_exec.Prelude.Map.{Map, Eq, get, contains}

pub record DependencyGraph (P : Type 0) : Type 0 where
  pub edges : Map P (List P)

module _ {P : Type 0} ⦃e : Eq P⦄ where
  unfoldable pub dependencies_of : P → DependencyGraph P → Option (List P)
  dependencies_of path graph = get path graph.edges

  -- One entry of the graph, for a dependency that was taken from the queue: the files found and the
  -- queue after it.
  unfoldable pub visit_entry : P → P × List P → List P × List P → List P × List P
  visit_entry dependency (path, dependencies) (result, queue) =
      if contains dependency dependencies && not (contains path result)
      then (path ∷ result, queue ++ path ∷ [])
      else (result, queue)

  unfoldable pub visit_entries : P → Map P (List P) → List P × List P → List P × List P
  visit_entries dependency [] s = s
  visit_entries dependency (entry ∷ entries) s =
      visit_entries dependency entries (visit_entry dependency entry s)

  -- The loop over the queue; `none` is fuel that ran out.
  unfoldable pub drain : ℕ → Map P (List P) → List P → List P → Option (List P)
  drain fuel edges result [] = some result
  drain zero edges result (dependency ∷ queue) = none
  drain (suc fuel) edges result (dependency ∷ queue) =
      let (found, waiting) = visit_entries dependency edges (result, queue) in
      drain fuel edges found waiting

  unfoldable pub dependent_closure : List P → DependencyGraph P → Option (List P)
  dependent_closure changed graph =
      drain (length changed + length graph.edges) graph.edges changed changed
