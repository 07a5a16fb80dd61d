-- ===== src/CodingAgent/Tests.antt =====
-- The coding agent's loop (agent.py) on a few answers of its surroundings.
use architect.Common.{
  ℕ, zero, suc, ◌≡◌, refl, ◌↔◌, true, false, Option, none, some, List, [], ◌∷◌, All, length,
}
use architect.Common.Result.{Result, ok, err}
use architect.Common.Text.{Text, codes, strip, splitlines}
use architect.CodingAgent.Models.{
  ℤ, pos, negsuc, CommandResult, error_line, command_failed, AgentRun, AgentOutput, exit_zero,
  World, Exception,
}
use architect.CodingAgent.Coder.{parse_files}
use architect.CodingAgent.Report.{collect_errors, build_commit_message}
use architect.CodingAgent.Report.Blank.{IsQuiet, collect_errors-IsQuiet}
use architect.CodingAgent.Git.{run_git, write_file, write_all, commit}
use architect.CodingAgent.Loop.{
  plan, ask, fix_errors, run_sandbox, attempt_all, rounds, try_commit, publish, execute,
}
use architect.CodingAgent.Loop.Commits.{runs, IsSafe}
use architect.CodingAgent.Loop.Outcome.{Finished, execute-IsSafe, execute-Finished}

abbrev printed : ℤ → Text → Text → CommandResult
printed code out error_out = record { exit_code = code; stdout = out; stderr = error_out }

abbrev failed : CommandResult
failed = printed (pos 1) (codes "FAILED t.py\n1 failed\nan error") []

-- Lines with a word for an error are reported, stripped.
reported :
    collect_errors (printed (pos 0) [] [] ∷ failed ∷ printed (pos 2) (codes " oops ") [] ∷ [])
    ≡ error_line (codes "FAILED t.py") ∷ error_line (codes "an error") ∷ []
unfolding collect_errors strip splitlines
reported = refl

generic :
    collect_errors (printed (negsuc 8) (codes "oops") [] ∷ [])
    ≡ command_failed (negsuc 8) (codes "oops") ∷ []
unfolding collect_errors strip splitlines
generic = refl

-- A failure counts as none if a blank line on stderr hides what stdout says, or if there is no result.
hidden : collect_errors (printed (pos 1) (codes "FAILED t.py") (codes "\n") ∷ []) ≡ []
unfolding collect_errors strip splitlines
hidden = refl

-- The last block of a path counts, and stands where it came.
parsed_files :
    parse_files
      ((codes "a.py ", codes "1") ∷ (codes "Test_b.py", codes "2") ∷ (codes "a.py", codes "3") ∷ [])
    ≡ record { path = codes "Test_b.py"; content = codes "2"; is_test = true }
      ∷ record { path = codes "a.py"; content = codes "3"; is_test = false }
      ∷ []
unfolding parse_files strip
parsed_files = refl

abbrev first_fails : ℕ → Option (List CommandResult)
first_fails zero = none
first_fails (suc zero) = some (failed ∷ [])
first_fails (suc (suc n)) = some (printed (pos 0) (codes "ok") [] ∷ [])

abbrev hash : Text
hash = codes "0123456789012345678901234567890123456789"

abbrev world : World
world = record {
  plan = λ log. some (codes "plan");
  blocks = λ log. some ((codes "a.py", codes "x") ∷ []);
  results = λ log. first_fails (runs log);
  total_tokens = length;
  is_dir = λ log. true;
  has_git_dir = λ log. true;
  is_inside = λ log path. true;
  write_fails = λ log. false;
  git = λ log. exit_zero hash;
  refused = λ log. false;
}

abbrev task : AgentRun
task = record { id = 1; task_id = 2; title = codes "t"; model_id = codes "m" }

abbrev commit_hash_of : Result Exception AgentOutput → Text
commit_hash_of (ok o) = o.commit_hash
commit_hash_of (err e) = []

-- The second run passes and is committed.
committed : commit_hash_of (execute world (pos 3) task []).0 ≡ hash
unfolding execute plan ask fix_errors run_sandbox attempt_all rounds try_commit publish commit
    write_all write_file run_git collect_errors build_commit_message parse_files strip splitlines
committed = refl

two_runs : runs (execute world (pos 3) task []).1 ≡ 2
unfolding execute plan ask fix_errors run_sandbox attempt_all rounds try_commit publish commit
    write_all write_file run_git collect_errors build_commit_message parse_files strip splitlines
two_runs = refl

-- With a negative number of retries nothing is run, and the code raises.
none_run : runs (execute world (negsuc 0) task []).1 ≡ 0
unfolding execute plan ask fix_errors run_sandbox attempt_all rounds try_commit publish commit
    write_all write_file run_git collect_errors build_commit_message parse_files strip splitlines
none_run = refl

execute-IsSafe_example : IsSafe world (execute world (pos 3) task []).1
execute-IsSafe_example = execute-IsSafe world (pos 3) task

execute-Finished_example :
    Finished world (pos 3) task (execute world (pos 3) task []).0 (execute world (pos 3) task []).1
execute-Finished_example = execute-Finished world (pos 3) task

collect_errors-IsQuiet_example :
    (collect_errors (failed ∷ printed (pos 0) [] [] ∷ []) ≡ [])
    ↔ All IsQuiet (failed ∷ printed (pos 0) [] [] ∷ [])
collect_errors-IsQuiet_example = collect_errors-IsQuiet (failed ∷ printed (pos 0) [] [] ∷ [])
