-- ===== src/CodingAgent/Loop/Rounds.antt =====
-- The rounds of the coding agent's loop (agent.py), by its log.
use architect.Common.{
  ℕ, zero, suc, ◌+◌, ◌≤◌, ◌≡◌, refl, ap, subst, ◌⊎◌, inl, inr, true, List, [], ◌∷◌, arith,
  Option-cases,
}
use architect.Common.Result.{Result, ok, err, pure}
use architect.Common.Triple.{Triple, Keeps, Triple-bind, Triple-weaken, Triple-if, Keeps-bind}
use architect.CodingAgent.Models.{
  GeneratedFile, CommandResult, Error, Command, ask_code, ask_fix, execute_files, World, Exception,
}
use architect.CodingAgent.Report.{collect_errors}
use architect.CodingAgent.Git.{M}
use architect.CodingAgent.Loop.{
  Attempt, has_no_errors, plan, ask, fix_errors, run_sandbox, tokens, fix_and_retry, fix_or_stop,
  attempt_all,
}
use architect.CodingAgent.Loop.Commits.{runs, IsRun, IsSafe}

pub no_errors : (errors : List Error) → has_no_errors errors ≡ true → errors ≡ []
no_errors [] h = refl
no_errors (e ∷ es) h = cc

module _ (w : World) where
  abbrev pub After : ℕ → List Command → Type 0
  After n log = IsSafe w log × (runs log ≡ n)

  -- How the loop ends, if it may run the sandbox until there were so many runs.
  abbrev pub Ended : ℕ → Result Exception Attempt → List Command → Type 0
  Ended n (ok a) log =
      IsSafe w log
      × IsRun w a.files a.errors log
      × (runs log ≤ n)
      × ((a.errors ≡ []) ⊎ (runs log ≡ n))
  Ended n (err e) log = IsSafe w log × (runs log ≤ n)

  pub ask_code-After : (n : ℕ) → Keeps (After n) (ask w ask_code)
  unfolding ask
  ask_code-After n = record { at = λ log h. ((tt, h.0), h.1) }

  fix_errors-After :
      (n : ℕ) (files : List GeneratedFile) (errors : List Error)
      → Keeps (After n) (fix_errors w files errors)
  unfolding fix_errors ask
  fix_errors-After n files errors =
      Keeps-bind (ask w (ask_fix files errors)) _ (record { at = λ log h. ((tt, h.0), h.1) })
        (λ fixed. record { at = λ log h. h })

  pub plan-After : (n : ℕ) → Keeps (After n) (plan w)
  unfolding plan
  plan-After n = record { at = λ log h. ((tt, h.0), h.1) }

  abbrev Ran :
      ℕ → List GeneratedFile → Result Exception (List CommandResult) → List Command → Type 0
  Ran n files (ok results) log = After (suc n) log × IsRun w files (collect_errors results) log
  Ran n files (err e) log = After (suc n) log

  run_sandbox-Ran :
      (n : ℕ) (files : List GeneratedFile) → Triple (After n) (run_sandbox w files) (Ran n files)
  unfolding run_sandbox
  run_sandbox-Ran n files = record {
    at = λ log h. elim (Option-cases (w.results (execute_files files ∷ log))) [
      | inl e ↦ rw e ((tt, h.0), ap suc h.1)
      | inr (results, e) ↦ rw e (
        ((tt, h.0), ap suc h.1),
        record {
          before = log;
          results = results;
          is_run = refl;
          is_result = e;
          is_collected = refl;
        },
      )
    ];
  }

  fix_or_stop-Ended :
      (n m : ℕ) (again : List GeneratedFile → ℕ → M Attempt) (files : List GeneratedFile)
      (results : List CommandResult) (total : ℕ)
      → suc n ≤ m
      → ((fs : List GeneratedFile) (t : ℕ) → Triple (After (suc n)) (again fs t) (Ended m))
      → Triple
          (λ log. After (suc n) log × IsRun w files (collect_errors results) log)
          (fix_or_stop w again files (collect_errors results) total)
          (Ended m)
  fix_or_stop-Ended n m again files results total le h =
      Triple-if {Q = Ended m} (has_no_errors (collect_errors results))
        (pure (record { files = files; errors = collect_errors results; total_tokens = total }))
        (fix_and_retry w again files (collect_errors results))
        (λ e. record {
          at = λ log k.
              (k.0.0, k.1, omega (arith, k.0.1, le), inl (no_errors (collect_errors results) e));
        })
        (λ e.
          Triple-weaken {Q = Ended m} (fix_and_retry w again files (collect_errors results))
            (λ log k. k.0) (λ r log k. k)
            (Triple-bind {R = λ _. After (suc n)} {Q = Ended m}
              (fix_errors w files (collect_errors results)) _
              (fix_errors-After (suc n) files (collect_errors results))
              (λ fixed.
                Triple-bind {R = λ _. After (suc n)} {Q = Ended m} (tokens w) (again fixed)
                  (record { at = λ log k. k }) (λ t. h fixed t)
                  (λ x log k. (k.0, omega (arith, k.1, le))))
              (λ x log k. (k.0, omega (arith, k.1, le)))))

  pub attempt_all-Ended :
      (left n : ℕ) (files : List GeneratedFile) (total : ℕ)
      → Triple (After n) (attempt_all w left files total) (Ended (n + suc left))
  unfolding attempt_all
  attempt_all-Ended zero n files total =
      Triple-bind {R = Ran n files} {Q = Ended (n + 1)} (run_sandbox w files) _
        (run_sandbox-Ran n files)
        (λ results. record {
          at = λ log k. (k.0.0, k.1, omega (arith, k.0.1), inr (omega (arith, k.0.1)));
        })
        (λ e log k. (k.0, omega (arith, k.1)))
  attempt_all-Ended (suc left) n files total =
      let same : suc n + suc left ≡ n + suc (suc left) = omega arith in
      let m = n + suc (suc left) in
      Triple-bind {R = Ran n files} {Q = Ended (n + suc (suc left))} (run_sandbox w files) _
        (run_sandbox-Ran n files)
        (λ results.
          fix_or_stop-Ended n m (attempt_all w left) files results total (omega arith) (λ fs t.
            subst (λ (j : ℕ). Triple (After (suc n)) (attempt_all w left fs t) (Ended j)) same
              (attempt_all-Ended left (suc n) fs t)))
        (λ e log k. (k.0, omega (arith, k.1)))
