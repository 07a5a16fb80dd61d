-- ===== src/CodingAgent/Loop/Outcome.antt =====
-- How `CodingAgentLoop.execute` (agent.py) ends, by its log.
use architect.Common.{
  take, ℕ, suc, ◌+◌, ◌≤◌, ◌≡◌, refl, sym, ap, subst, ◌⊎◌, inl, inr, false, List, [], ◌∷◌, arith,
  Bool-cases,
}
use architect.Common.Result.{Result, ok, err, pure, ◌>>◌}
use architect.Common.Text.{Text}
use architect.Common.Triple.{Triple, Triple-bind}
use architect.CodingAgent.Models.{
  ℤ, pos, negsuc, GeneratedFile, Error, CommitMessage, AgentRun, AgentOutput, Command, ask_code,
  publish_completed, World, Exception,
}
use architect.CodingAgent.Report.{build_commit_message}
use architect.CodingAgent.Loop.{
  Attempt, has_no_errors, rounds, plan, ask, tokens, attempt_all, commit_if_passed, publish,
  execute,
}
use architect.CodingAgent.Loop.Commits.{last_run, runs, IsRun, IsSafe}
use architect.CodingAgent.Loop.Safety.{try_commit-Since}
use architect.CodingAgent.Loop.Rounds.{
  no_errors, After, Ended, ask_code-After, plan-After, attempt_all-Ended,
}

module _ (w : World) where
  -- The repository was touched after the last run only if that run found no errors.
  abbrev Decided :
      ℕ → List GeneratedFile → List Error → Result Exception Text → List Command → Type 0
  Decided n files errors r log =
      IsSafe w log
      × IsRun w files errors (last_run log)
      × (runs log ≤ n)
      × ((errors ≡ []) ⊎ ((runs log ≡ n) × (r ≡ ok []) × (log ≡ last_run log)))

  gives_up :
      (n : ℕ) (errors : List Error) (log : List Command)
      → has_no_errors errors ≡ false
      → (errors ≡ []) ⊎ (runs log ≡ n)
      → runs log ≡ n
  gives_up n errors log some_errors (inl e) = absurd (cc (ap has_no_errors e))
  gives_up n errors log some_errors (inr e) = e

  last_run-IsRun :
      (files : List GeneratedFile) (errors : List Error) (log : List Command)
      → IsRun w files errors log
      → last_run log ≡ log
  last_run-IsRun files errors log run = rw run.is_run refl

  commit_if_passed-Decided :
      (n : ℕ) (a : Attempt) (m : CommitMessage)
      → Triple
          (Ended w n (ok a))
          (commit_if_passed w a.errors a.files m)
          (Decided n a.files a.errors)
  commit_if_passed-Decided n a m = record {
    at = λ log h.
        let (safe, run, le, over) = h in
        elim (Bool-cases (has_no_errors a.errors)) [
          | inl e ↦
              let none_found = no_errors a.errors e in
              let run' = subst (λ es. IsRun w a.files es log) none_found run in
              let (s, l, r) = (try_commit-Since w a.files log run' m).at log (safe, refl) in
              rw e (
                s,
                subst (λ t. IsRun w a.files a.errors t) (sym l) run,
                omega (arith, le, r),
                inl none_found,
              )
          | inr e ↦ rw e (
            safe,
            subst (λ t. IsRun w a.files a.errors t) (sym (last_run-IsRun a.files a.errors log run))
                run,
            le,
            inr (
              gives_up n a.errors log e over,
              refl,
              sym (last_run-IsRun a.files a.errors log run),
            ),
          )
        ];
  }

  -- The rounds of the loop.
  abbrev pub attempts : ℤ → ℕ
  attempts (pos n) = suc n
  attempts (negsuc n) = 0

  rounds-Ended :
      (max_retries : ℤ) (files : List GeneratedFile) (total : ℕ)
      → Triple (After w 0) (rounds w max_retries files total) (Ended w (attempts max_retries))
  unfolding rounds
  rounds-Ended (pos n) files total =
      let same : 0 + suc n ≡ suc n = omega arith in
      subst (λ (j : ℕ). Triple (After w 0) (attempt_all w n files total) (Ended w j)) same
        (attempt_all-Ended w n 0 files total)
  rounds-Ended (negsuc n) files total = record { at = λ log h. (h.0, omega (arith, h.1)) }

  module _ (max_retries : ℤ) (run : AgentRun) where
    -- What was done after the latest run of the files, up to the event: if errors were left, nothing.
    abbrev IsConcluded : List Error → Text → (log before : List Command) → Type 0
    IsConcluded errors commit_hash log before =
        (errors ≡ [])
        ⊎ ((runs log ≡ attempts max_retries) × (commit_hash ≡ []) × (before ≡ last_run log))

    -- How `execute` ends.
    abbrev pub Finished : Result Exception AgentOutput → List Command → Type 0
    Finished (ok o) log =
        (runs log ≤ attempts max_retries)
        × ((before : List Command) × (log ≡ publish_completed run.id o.tokens_used ∷ before)
            × ((errors : List Error) × IsRun w o.files errors (last_run log)
                × IsConcluded errors o.commit_hash log before))
    Finished (err e) log = runs log ≤ attempts max_retries

    abbrev SafeAndFinished : Result Exception AgentOutput → List Command → Type 0
    SafeAndFinished r log = IsSafe w log × Finished r log

    publish-Finished :
        (a : Attempt) (text : Text) (commit_hash : Text)
        → Triple
            (Decided (attempts max_retries) a.files a.errors (ok commit_hash))
            (do
              publish w (publish_completed run.id a.total_tokens)
              pure (record {
                task_id = run.task_id;
                agent_id = run.id;
                files = a.files;
                commit_message = build_commit_message run a.files;
                commit_hash = commit_hash;
                reasoning_summary = text;
                tokens_used = a.total_tokens;
                model_id = run.model_id;
              }))
            SafeAndFinished
    unfolding publish
    publish-Finished a text commit_hash = record {
      at = λ log h.
          let (safe, was, le, over) = h in
          elim (Bool-cases (w.refused (publish_completed run.id a.total_tokens ∷ log))) [
            | inl e ↦ rw e ((tt, safe), le)
            | inr e ↦ rw e ((tt, safe), (le, (log, refl, (a.errors, was, hash log over))))
          ];
    }
      where
        hash :
            (log : List Command)
            → (a.errors ≡ [])
              ⊎ ((runs log ≡ attempts max_retries)
                  × (◌≡◌ {A = Result Exception Text} (ok commit_hash) (ok []))
                  × (log ≡ last_run log))
            → IsConcluded a.errors commit_hash (publish_completed run.id a.total_tokens ∷ log) log
        hash log (inl e) = inl e
        hash log (inr (n, e, last)) = inr (n, cc, last)

    execute-SafeAndFinished :
        SafeAndFinished (execute w max_retries run []).0 (execute w max_retries run []).1
    unfolding execute
    execute-SafeAndFinished =
        (Triple-bind {R = λ _. After w 0} {Q = SafeAndFinished} (plan w) _ (plan-After w 0)
            (λ text.
              Triple-bind {R = λ _. After w 0} {Q = SafeAndFinished} (ask w ask_code) _
                (ask_code-After w 0)
                (λ files.
                  Triple-bind {R = λ _. After w 0} {Q = SafeAndFinished} (tokens w) _
                    (record { at = λ log h. h })
                    (λ total.
                      Triple-bind {R = Ended w (attempts max_retries)} {Q = SafeAndFinished}
                        (rounds w max_retries files total) _ (rounds-Ended max_retries files total)
                        (λ last.
                          Triple-bind {R = Decided (attempts max_retries) last.files last.errors}
                            {Q = SafeAndFinished}
                            (commit_if_passed w last.errors last.files
                              (build_commit_message run last.files))
                            _
                            (commit_if_passed-Decided (attempts max_retries) last
                              (build_commit_message run last.files))
                            (λ commit_hash. publish-Finished last (take 500 text) commit_hash)
                            (λ e log k. (k.0, k.2)))
                        (λ e log k. k))
                    (λ e log k. (k.0, omega (arith, k.1))))
                (λ e log k. (k.0, omega (arith, k.1))))
            (λ e log k. (k.0, omega (arith, k.1)))).at
          [] (tt, refl)

    -- Whatever the model, the sandbox and the repository do: a file is written into the repository,
    -- staged or committed only if the latest run in the sandbox was of files to which it belongs, no
    -- error was found in that run's results, and the paths of all of these files resolve inside the
    -- repository.
    pub execute-IsSafe : IsSafe w (execute w max_retries run []).1
    execute-IsSafe = execute-SafeAndFinished.0

    -- The files are run at most `max_retries` + 1 times, and never if that is below zero. If `execute`
    -- returns, the files of its output are those of the latest run and its last act is the event with
    -- the tokens of its output; and either no error was found in that run, or there were as many runs
    -- as there may be, nothing was written, staged or committed between the run and the event, and the
    -- output has no commit hash.
    pub execute-Finished :
        Finished (execute w max_retries run []).0 (execute w max_retries run []).1
    execute-Finished = execute-SafeAndFinished.1
