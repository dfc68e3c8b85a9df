-- ===== src/Project/Dependency/Examples.antt =====
-- A graph of three files.
use apex_exec.Prelude.{◌≡◌, refl, Bool, some, List, [], ◌∷◌}
use apex_exec.Prelude.Text.{Text, codes}
use apex_exec.Prelude.Map.{text_key, contains}
use apex_exec.Project.Dependency.{
  DependencyGraph, dependent_closure, drain, visit_entry, visit_entries,
}
use apex_exec.Project.Dependency.Closure.{IsClosed, IsWithin, dependent_closure-IsClosed}

abbrev services : DependencyGraph Text
services = record {
  edges = (codes "A", codes "B" ∷ []) ∷ (codes "B", codes "C" ∷ []) ∷ (codes "C", []) ∷ [];
}

dependent_closure-IsClosed_example :
    (r : List Text) × ((dependent_closure (codes "C" ∷ []) services ≡ some r)
      × IsWithin (λ x. contains x r) (codes "C" ∷ [])
      × IsClosed services.edges (λ x. contains x r)
      × ((s : Text → Bool)
          → IsClosed services.edges s
          → IsWithin s (codes "C" ∷ [])
          → IsWithin s r))
dependent_closure-IsClosed_example = dependent_closure-IsClosed (codes "C" ∷ []) services

-- B depends on C, and A on B.
all_three :
    dependent_closure (codes "C" ∷ []) services ≡ some (codes "A" ∷ codes "B" ∷ codes "C" ∷ [])
unfolding dependent_closure drain visit_entries visit_entry contains
all_three = refl
