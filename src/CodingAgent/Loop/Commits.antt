-- ===== src/CodingAgent/Loop/Commits.antt =====
-- What `CodingAgentLoop.execute` (agent.py) has run before it writes to the repository, by its log.
use architect.Common.{ℕ, suc, ◌≡◌, ◌⊎◌, true, some, List, [], ◌∷◌}
use architect.Common.Text.{Text}
use architect.CodingAgent.Models.{
  GeneratedFile, CommandResult, Error, Command, ask_plan, ask_code, ask_fix, execute_files,
  write_text, git_add, git_commit, git_rev_parse, publish_completed, World,
}
use architect.CodingAgent.Report.{collect_errors}
use architect.CodingAgent.Git.{paths, all_inside}

-- The log as it was after the latest run in the sandbox, and how many runs there were.
abbrev pub last_run : List Command → List Command
last_run [] = []
last_run (execute_files files ∷ log) = execute_files files ∷ log
last_run (ask_plan ∷ log) = last_run log
last_run (ask_code ∷ log) = last_run log
last_run (ask_fix files errors ∷ log) = last_run log
last_run (write_text p c ∷ log) = last_run log
last_run (git_add ps ∷ log) = last_run log
last_run (git_commit m ∷ log) = last_run log
last_run (git_rev_parse ∷ log) = last_run log
last_run (publish_completed a n ∷ log) = last_run log

abbrev pub runs : List Command → ℕ
runs [] = 0
runs (execute_files files ∷ log) = suc (runs log)
runs (ask_plan ∷ log) = runs log
runs (ask_code ∷ log) = runs log
runs (ask_fix files errors ∷ log) = runs log
runs (write_text p c ∷ log) = runs log
runs (git_add ps ∷ log) = runs log
runs (git_commit m ∷ log) = runs log
runs (git_rev_parse ∷ log) = runs log
runs (publish_completed a n ∷ log) = runs log

abbrev pub IsFile : Text → Text → List GeneratedFile → Type 0
IsFile p c [] = ⊥
IsFile p c (f ∷ fs) = ((f.path ≡ p) × (f.content ≡ c)) ⊎ IsFile p c fs

module _ (w : World) where
  -- The log ends with a run of the files, in which these errors were found.
  pub record IsRun (files : List GeneratedFile) (errors : List Error) (log : List Command)
      : Type 0 where
    pub before : List Command
    pub results : List CommandResult
    pub is_run : log ≡ execute_files files ∷ before
    pub is_result : w.results (execute_files files ∷ before) ≡ some results
    pub is_collected : errors ≡ collect_errors results

  -- The files may be committed.
  pub record IsTested (files : List GeneratedFile) (log : List Command) : Type 0 where
    pub was_run : IsRun files [] (last_run log)
    pub inside : all_inside w files (last_run log) ≡ true

  -- A command that touches the repository is about files that may be committed.
  abbrev pub Allowed : Command → List Command → Type 0
  Allowed (write_text p c) log =
      (files : List GeneratedFile) × IsTested files log × IsFile p c files
  Allowed (git_add ps) log = (files : List GeneratedFile) × IsTested files log × (ps ≡ paths files)
  Allowed (git_commit m) log = (files : List GeneratedFile) × IsTested files log
  Allowed _ log = Unit {0}

  abbrev pub IsSafe : List Command → Type 0
  IsSafe [] = Unit {0}
  IsSafe (c ∷ log) = Allowed c log × IsSafe log
