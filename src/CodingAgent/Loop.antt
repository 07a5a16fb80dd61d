-- ===== src/CodingAgent/Loop.antt =====
-- `CodingAgentLoop.execute`, services/coding-agent/src/coding_agent/agent.py, with a log of what it
-- does. The model, the sandbox, the repository and the publisher are the parameter `World`.
pub mod Commits
pub mod Safety
pub mod Rounds
pub mod Outcome
use architect.Common.{
  take, ℕ, zero, suc, Bool, true, false, not, Option, none, some, List, [], ◌∷◌, if◌then◌else◌,
}
use architect.Common.Result.{Result, ok, err, pure, raise, raise_unless, reads, ◌>>=◌, ◌>>◌}
use architect.Common.Text.{Text}
use architect.TaskGraph.Models.{AgentId}
use architect.CodingAgent.Models.{
  ℤ, pos, negsuc, GeneratedFile, CommandResult, Error, CommitMessage, AgentRun, AgentOutput,
  Command, ask_plan, ask_code, ask_fix, execute_files, publish_completed, World, Exception,
  git_commit_error, other_error,
}
use architect.CodingAgent.Coder.{parse_files, or_files}
use architect.CodingAgent.Report.{collect_errors, build_commit_message}
use architect.CodingAgent.Git.{M, commit}

-- What an await gives, where it does not raise.
abbrev pub awaited : {A : Type 0} → Option A → Result Exception A
awaited none = err other_error
awaited (some a) = ok a

abbrev pub parsed : Option (List (Text × Text)) → Result Exception (List GeneratedFile)
parsed none = err other_error
parsed (some blocks) = ok (parse_files blocks)

-- The files, the errors of their last run, and the tokens counted so far.
pub record Attempt : Type 0 where
  pub files : List GeneratedFile
  pub errors : List Error
  pub total_tokens : ℕ

abbrev pub has_no_errors : List Error → Bool
has_no_errors [] = true
has_no_errors (e ∷ es) = false

-- `except GitCommitError`
abbrev pub or_no_hash : Result Exception Text → Result Exception Text
or_no_hash (ok commit_hash) = ok commit_hash
or_no_hash (err git_commit_error) = ok []
or_no_hash (err other_error) = err other_error

module _ (w : World) where
  unfoldable pub plan : M Text
  plan log = (awaited (w.plan (ask_plan ∷ log)), ask_plan ∷ log)

  -- A call of the model, and the files in its reply.
  unfoldable pub ask : Command → M (List GeneratedFile)
  ask c log = (parsed (w.blocks (c ∷ log)), c ∷ log)

  unfoldable pub fix_errors : List GeneratedFile → List Error → M (List GeneratedFile)
  fix_errors files errors = do fixed ← ask (ask_fix files errors); pure (or_files fixed files)

  unfoldable pub run_sandbox : List GeneratedFile → M (List CommandResult)
  run_sandbox files log =
      (awaited (w.results (execute_files files ∷ log)), execute_files files ∷ log)

  abbrev pub tokens : M ℕ
  tokens = reads (λ log. ok (w.total_tokens log))

  abbrev pub fix_and_retry :
      (List GeneratedFile → ℕ → M Attempt) → List GeneratedFile → List Error → M Attempt
  fix_and_retry again files errors = do
    fixed ← fix_errors files errors
    total ← tokens
    again fixed total

  abbrev pub fix_or_stop :
      (List GeneratedFile → ℕ → M Attempt) → List GeneratedFile → List Error → ℕ → M Attempt
  fix_or_stop again files errors total =
      if has_no_errors errors
      then pure (record { files = files; errors = errors; total_tokens = total })
      else fix_and_retry again files errors

  -- An attempt, and the rest of the loop, which has no errors to fix in its last round.
  unfoldable pub attempt_all : ℕ → List GeneratedFile → ℕ → M Attempt
  attempt_all zero files total = do
    results ← run_sandbox files
    pure (record { files = files; errors = collect_errors results; total_tokens = total })
  attempt_all (suc left) files total =
      let again = attempt_all left in
      do results ← run_sandbox files; fix_or_stop again files (collect_errors results) total

  -- `for attempt in range(max_retries + 1)`. Below zero there is no round, so that no errors are ever
  -- assigned, and `if not errors` raises `UnboundLocalError`; nothing is done in between.
  unfoldable pub rounds : ℤ → List GeneratedFile → ℕ → M Attempt
  rounds (pos max_retries) files total = attempt_all max_retries files total
  rounds (negsuc n) files total = raise other_error

  unfoldable pub try_commit : List GeneratedFile → CommitMessage → M Text
  try_commit files message log = let (r, log') = commit w files message log in (or_no_hash r, log')

  abbrev pub commit_if_passed : List Error → List GeneratedFile → CommitMessage → M Text
  commit_if_passed errors files message =
      if has_no_errors errors then try_commit files message else pure []

  unfoldable pub publish : Command → M (Unit {0})
  publish c log = raise_unless (not (w.refused (c ∷ log))) other_error (c ∷ log)

  unfoldable pub execute : ℤ → AgentRun → M AgentOutput
  execute max_retries run = do
    text ← plan
    files ← ask ask_code
    total ← tokens
    last ← rounds max_retries files total
    let message = build_commit_message run last.files
    commit_hash ← commit_if_passed last.errors last.files message
    publish (publish_completed run.id last.total_tokens)
    pure (record {
      task_id = run.task_id;
      agent_id = run.id;
      files = last.files;
      commit_message = message;
      commit_hash = commit_hash;
      reasoning_summary = take 500 text;
      tokens_used = last.total_tokens;
      model_id = run.model_id;
    })
