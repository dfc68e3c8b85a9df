-- ===== src/TestRunner/Workers.antt =====
-- What the threads of src/test_runner.rs have left to do, added up.
use apex_exec.Prelude.{
  ℕ, zero, suc, ◌+◌, ◌≤◌, ◌<◌, ◌≡◌, refl, ap, none, some, List, [], ◌∷◌, ◌++◌, length, drop,
  get_elem?, arith,
}
use mathlib.Core.List.{append_assoc, Perm, perm_middle}
use mathlib.Core.List.Perm
use apex_exec.TestRunner.{Worker, ready, running, stopped, spawned}

module _ {A : Type 0} where
  pub get_elem?-none : (xs : List A) (i : ℕ) → get_elem? xs i ≡ none → length xs ≤ i
  get_elem?-none [] i h = omega arith
  get_elem?-none (x ∷ xs) zero h = cc
  get_elem?-none (x ∷ xs) (suc i) h = omega (arith, get_elem?-none xs i h)

  pub get_elem?-some :
      (xs : List A) (i : ℕ) (y : A)
      → get_elem? xs i ≡ some y
      → (drop i xs ≡ y ∷ drop (suc i) xs) × (i < length xs)
  get_elem?-some [] i y h = cc
  get_elem?-some (x ∷ xs) zero y h = (cc, omega arith)
  get_elem?-some (x ∷ xs) (suc i) y h =
      let (e, l) = get_elem?-some xs i y h in (e, omega (arith, l))

  pub drop-past : (xs : List A) (i : ℕ) → length xs ≤ i → drop i xs ≡ []
  drop-past [] zero h = refl
  drop-past [] (suc i) h = refl
  drop-past (x ∷ xs) zero h = absurd (omega arith)
  drop-past (x ∷ xs) (suc i) h = drop-past xs i (omega arith)

module _ {C : Type 0} where
  abbrev pub total : (Worker C → ℕ) → List (Worker C) → ℕ
  total f [] = 0
  total f (w ∷ ws) = f w + total f ws

  pub total-append :
      (f : Worker C → ℕ) (before after : List (Worker C))
      → total f (before ++ after) ≡ total f before + total f after
  total-append f [] after = omega arith
  total-append f (w ∷ before) after = omega (arith, total-append f before after)

  -- The moves that a worker has left, once every case is claimed.
  abbrev pub work : Worker C → ℕ
  work ready = 1
  work (running case) = 2
  work stopped = 0

  abbrev pub ends : Worker C → ℕ
  ends ready = 0
  ends (running case) = 0
  ends stopped = 1

  abbrev pub one : Worker C → ℕ
  one w = 1

pub total-spawned :
    (C : Type 0) (n : ℕ)
    → (total work (spawned {C = C} n) ≡ n)
      × (total ends (spawned {C = C} n) ≡ 0)
      × (total one (spawned {C = C} n) ≡ n)
total-spawned C zero = (refl, refl, refl)
total-spawned C (suc n) =
    let (a, b, c) = total-spawned C n in (omega (arith, a), omega (arith, b), omega (arith, c))

module _ {C E : Type 0} (execute : C → E) where
  abbrev pub results : List (Worker C) → List E
  results [] = []
  results (ready ∷ ws) = results ws
  results (running case ∷ ws) = execute case ∷ results ws
  results (stopped ∷ ws) = results ws

  pub results-append :
      (before after : List (Worker C)) → results (before ++ after) ≡ results before ++ results after
  results-append [] after = refl
  results-append (ready ∷ before) after = results-append before after
  results-append (running case ∷ before) after =
      ap (λ (r : List E). execute case ∷ r) (results-append before after)
  results-append (stopped ∷ before) after = results-append before after

module _ {E : Type 0} where
  -- A case that is claimed leaves the rest; one that was executed leaves its thread.
  pub claims-Perm :
      (executed before after rest : List E) (x : E)
      → Perm
          (executed ++ ((before ++ after) ++ x ∷ rest))
          (executed ++ ((before ++ x ∷ after) ++ rest))
  claims-Perm executed before after rest x = Perm.append_left executed (
      Perm.trans (perm_middle (before ++ after) rest)
        (Perm.append_right rest (Perm.symm (perm_middle before after))))

  pub pushes-Perm :
      (executed before after rest : List E) (x : E)
      → Perm
          (executed ++ ((before ++ x ∷ after) ++ rest))
          ((executed ++ x ∷ []) ++ ((before ++ after) ++ rest))
  pushes-Perm executed before after rest x =
      rw (append_assoc executed (x ∷ []) ((before ++ after) ++ rest))
        (Perm.append_left executed (Perm.append_right rest (perm_middle before after)))
