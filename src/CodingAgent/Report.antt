-- ===== src/CodingAgent/Report.antt =====
-- `CodingAgentLoop._collect_errors` and `_build_commit_message`,
-- services/coding-agent/src/coding_agent/agent.py.
pub mod Blank
use architect.Common.{
  ℕ, zero, suc, ◌-◌, Bool, true, false, ◌&&◌, ◌||◌, List, [], ◌∷◌, ◌++◌, filter, length, take,
  if◌then◌else◌,
}
use architect.Common.Text.{Text, codes, strip, lower, is_in, splitlines}
use architect.CodingAgent.Models.{
  ℤ, pos, negsuc, GeneratedFile, CommandResult, Error, error_line, command_failed, CommitMessage,
  AgentRun,
}

abbrev pub is_zero : ℤ → Bool
is_zero (pos zero) = true
is_zero _ = false

-- `stderr or stdout`
abbrev pub or_text : Text → Text → Text
or_text [] t = t
or_text (c ∷ s) t = c ∷ s

abbrev pub output : CommandResult → Text
output r = or_text r.stderr r.stdout

abbrev pub is_error_line : Text → Bool
is_error_line [] = false
is_error_line (c ∷ s) =
    is_in (codes "Error") (c ∷ s)
    || is_in (codes "FAILED") (c ∷ s)
    || is_in (codes "error") (lower (c ∷ s))

-- The loop over the lines.
unfoldable pub error_lines : List Text → List Error
error_lines [] = []
error_lines (line ∷ lines) =
    let rest = error_lines lines in
    if is_error_line (strip line) then error_line (strip line) ∷ rest else rest

-- The message for a command, unless there are errors or it printed nothing.
abbrev pub or_generic : ℤ → Text → Text → List Error → List Error
or_generic code out [] [] = []
or_generic code out (c ∷ s) [] = command_failed code (take 500 out) ∷ []
or_generic code out stripped (e ∷ es) = e ∷ es

abbrev pub after : CommandResult → List Error → List Error
after r errors =
    if is_zero r.exit_code
    then errors
    else or_generic r.exit_code (output r) (strip (output r))
        (errors ++ error_lines (splitlines (output r)))

abbrev pub collect : List CommandResult → List Error → List Error
collect [] errors = errors
collect (r ∷ rs) errors = collect rs (after r errors)

unfoldable pub collect_errors : List CommandResult → List Error
unfolding error_lines
collect_errors rs = collect rs []

abbrev count_tests : List GeneratedFile → ℕ
count_tests files = length (filter (λ f. f.is_test) files)

unfoldable pub build_commit_message : AgentRun → List GeneratedFile → CommitMessage
build_commit_message run files = record {
  title = run.title;
  src_count = length files - count_tests files;
  test_count = count_tests files;
  task_id = run.task_id;
  agent_id = run.id;
}
