-- ===== src/TestRunner/Schedule.antt =====
-- The schedules of the threads of src/test_runner.rs: they end, with every case executed once.
use apex_exec.Prelude.{
  ℕ, zero, suc, ◌+◌, ◌-◌, ◌*◌, ◌≤◌, ◌<◌, ◌≡◌, refl, ◌∙◌, ◌⊎◌, inl, inr, List, [], ◌∷◌, ◌++◌, map,
  length, drop, get_elem?, min, arith, Option-cases,
}
use mathlib.Core.List.{append_assoc, append-nil, Perm}
use mathlib.Core.List.Perm
use mathlib.Core.Path.{subst}
use apex_exec.TestRunner.{
  Worker, ready, running, stopped, Pool, spawned, initial, Step, fetch, push, Runs, begin, move,
}
use apex_exec.TestRunner.Workers.{
  get_elem?-none, get_elem?-some, drop-past, total, total-append, total-spawned, work, ends, one,
  results, results-append, claims-Perm, pushes-Perm,
}

module _ {C E : Type 0} (execute : C → E) (cases : List C) where
  -- What will have been executed: what was, what is claimed, and the cases that are left.
  abbrev outcome : Pool C E → List E
  outcome p = p.executed ++ (results execute p.workers ++ map execute (drop p.next cases))

  -- The moves made, and those that are left, are as many as a run has; a worker stops only once
  -- every case is claimed.
  record Balanced (jobs n : ℕ) (p : Pool C E) : Type 0 where
    accounted : Perm (outcome p) (map execute cases)
    moves :
        n + (2 * (length cases - p.next) + total work p.workers)
        ≡ 2 * length cases + min jobs (length cases)
    threads : total one p.workers ≡ min jobs (length cases)
    past : 0 < total ends p.workers → length cases ≤ p.next

  results-spawned : (n : ℕ) → results execute (spawned n) ≡ []
  results-spawned zero = refl
  results-spawned (suc n) = results-spawned n

  initial-Balanced : (jobs : ℕ) → Balanced jobs 0 (initial execute cases jobs)
  initial-Balanced jobs =
      let k = min jobs (length cases) in
      let (a, b, c) = total-spawned C k in
      record {
        accounted = rw (results-spawned k) (Perm.refl (map execute cases));
        moves = omega (arith, a);
        threads = c;
        past = λ h. absurd (omega (arith, b, h));
      }

  Step-Balanced :
      (jobs n : ℕ) {p q : Pool C E}
      → Balanced jobs n p
      → Step execute cases p q
      → Balanced jobs (suc n) q
  Step-Balanced jobs n h (push index executed before after case) =
      let m = h.moves in
      let t = h.threads in
      record {
        accounted =
            Perm.trans
              (Perm.symm (
                rw
                  (
                    results-append execute before (running case ∷ after),
                    results-append execute before (ready ∷ after),
                  )
                  (pushes-Perm executed (results execute before) (results execute after) _
                    (execute case))))
              h.accounted;
        moves = omega (
          arith,
          m,
          total-append work before (ready ∷ after),
          total-append work before (running case ∷ after),
        );
        threads = omega (
          arith,
          t,
          total-append one before (ready ∷ after),
          total-append one before (running case ∷ after),
        );
        past = λ k. h.past (
            omega (
              arith,
              k,
              total-append ends before (ready ∷ after),
              total-append ends before (running case ∷ after),
            ));
      }
  Step-Balanced jobs n h (fetch index executed before after) =
      let m = h.moves in
      let t = h.threads in
      elim (Option-cases (get_elem? cases index)) [
        | inl beyond ↦
            let l = get_elem?-none cases index beyond in
            rw beyond (record {
              accounted =
                  Perm.trans
                    (Perm.symm (
                      rw
                        (
                          results-append execute before (ready ∷ after),
                          results-append execute before (stopped ∷ after),
                          drop-past cases index l,
                          drop-past cases (suc index) (omega (arith, l)),
                        )
                        (Perm.refl _)))
                    h.accounted;
              moves = omega (
                arith,
                m,
                l,
                total-append work before (ready ∷ after),
                total-append work before (stopped ∷ after),
              );
              threads = omega (
                arith,
                t,
                total-append one before (ready ∷ after),
                total-append one before (stopped ∷ after),
              );
              past = λ k. omega (arith, l);
            })
        | inr (case, found) ↦
            let (e, l) = get_elem?-some cases index case found in
            rw found (record {
              accounted =
                  Perm.trans
                    (Perm.symm (
                      rw
                        (
                          results-append execute before (ready ∷ after),
                          results-append execute before (running case ∷ after),
                          e,
                        )
                        (claims-Perm executed (results execute before) (results execute after) _
                          (execute case))))
                    h.accounted;
              moves = omega (
                arith,
                m,
                l,
                total-append work before (ready ∷ after),
                total-append work before (running case ∷ after),
              );
              threads = omega (
                arith,
                t,
                total-append one before (ready ∷ after),
                total-append one before (running case ∷ after),
              );
              past = λ k. omega (
                arith,
                h.past (
                    omega (
                      arith,
                      k,
                      total-append ends before (ready ∷ after),
                      total-append ends before (running case ∷ after),
                    )),
              );
            })
      ]

  Runs-Balanced :
      (jobs : ℕ) {n : ℕ} {p q : Pool C E}
      → Runs execute cases n p q
      → Balanced jobs 0 p
      → Balanced jobs n q
  Runs-Balanced jobs (begin p) h = h
  Runs-Balanced jobs (move {n} r s) h = Step-Balanced jobs n (Runs-Balanced jobs r h) s

  -- Some worker can move, or no work is left.
  abbrev Moves : ℕ → List E → List (Worker C) → List (Worker C) → Type 0
  Moves index executed workers left =
      ((q : Pool C E) × Step execute cases
          (record { next = index; executed = executed; workers = workers }) q)
      ⊎ (total work left ≡ 0)

  Moves-stopped :
      (index : ℕ) (executed : List E) (workers left : List (Worker C))
      → Moves index executed workers left
      → Moves index executed workers (stopped ∷ left)
  Moves-stopped index executed workers left (inl step) = inl step
  Moves-stopped index executed workers left (inr rest) = inr (omega (arith, rest))

  some_move :
      (index : ℕ) (executed : List E) (before ws : List (Worker C))
      → Moves index executed (before ++ ws) ws
  some_move index executed before [] = inr refl
  some_move index executed before (ready ∷ ws) = inl (_, fetch index executed before ws)
  some_move index executed before (running case ∷ ws) = inl (_, push index executed before ws case)
  some_move index executed before (stopped ∷ ws) =
      subst (λ workers. Moves index executed workers (stopped ∷ ws))
        (append_assoc before (stopped ∷ []) ws)
        (Moves-stopped index executed _ ws (some_move index executed (before ++ stopped ∷ []) ws))

  idle :
      (ws : List (Worker C))
      → total work ws ≡ 0
      → (total ends ws ≡ total one ws) × (results execute ws ≡ [])
  idle [] h = (refl, refl)
  idle (ready ∷ ws) h = absurd (omega (arith, h))
  idle (running case ∷ ws) h = absurd (omega (arith, h))
  idle (stopped ∷ ws) h = let (e, r) = idle ws (omega (arith, h)) in (omega (arith, e), r)

  all_claimed :
      (jobs l threads next : ℕ)
      → 0 < jobs
      → threads ≡ min jobs l
      → (0 < threads → l ≤ next)
      → l ≤ next
  all_claimed jobs zero threads next j t h = omega arith
  all_claimed jobs (suc l) threads next j t h = h (omega (arith, j, t))

  -- A schedule has a bounded number of moves, and where it has come to, some thread can move, or
  -- each case was executed once.
  pub run-Completes :
      (jobs : ℕ) {n : ℕ} {p : Pool C E}
      → 0 < jobs
      → Runs execute cases n (initial execute cases jobs) p
      → (n ≤ 2 * length cases + min jobs (length cases))
        × (((q : Pool C E) × Step execute cases p q) ⊎ Perm p.executed (map execute cases))
  run-Completes jobs {n} {p} j r =
      let h = Runs-Balanced jobs r (initial-Balanced jobs) in
      let m = h.moves in
      (
        omega (arith, m),
        elim (some_move p.next p.executed [] p.workers) [
          | inl step ↦ inl step
          | inr rest ↦
              let (e, none_claimed) = idle p.workers rest in
              let l =
                all_claimed jobs (length cases) (total ends p.workers) p.next j (e ∙ h.threads)
                  h.past in
              inr (
                subst (λ left. Perm left (map execute cases))
                  (rw (none_claimed, drop-past cases p.next l) (append-nil p.executed)) h.accounted)
        ],
      )
