-- ===== src/CodingAgent/Git.antt =====
-- `GitCommitter.commit`, services/coding-agent/src/coding_agent/git.py, with a log of what it does.
use architect.Common.{Bool, true, false, not, List, [], ◌∷◌, map, every, length, ◌==◌}
use architect.Common.Result.{Result, ok, err, Action, pure, raise_unless, ◌>>=◌, ◌>>◌}
use architect.Common.Text.{Text, strip}
use architect.CodingAgent.Models.{
  GeneratedFile, CommitMessage, Command, write_text, git_add, git_commit, git_rev_parse, GitReply,
  exit_zero, exit_nonzero, not_started, World, Exception, git_commit_error, other_error,
}

abbrev pub M : Type 0 → Type 0
M A = Action (List Command) Exception A

abbrev pub is_nil : List GeneratedFile → Bool
is_nil [] = true
is_nil (f ∷ fs) = false

abbrev pub paths : List GeneratedFile → List Text
paths files = map (λ f. f.path) files

abbrev git_result : GitReply → Result Exception Text
git_result (exit_zero out) = ok out
git_result exit_nonzero = err git_commit_error
git_result not_started = err other_error

module _ (w : World) where
  -- `_run_git`
  unfoldable pub run_git : Command → M Text
  run_git c log = (git_result (w.git (c ∷ log)), c ∷ log)

  unfoldable pub write_file : GeneratedFile → M (Unit {0})
  write_file f log =
      let c = write_text f.path f.content in
      raise_unless (not (w.write_fails (c ∷ log))) other_error (c ∷ log)

  unfoldable pub write_all : List GeneratedFile → M (Unit {0})
  write_all [] = pure tt
  write_all (f ∷ fs) = let rest = write_all fs in do write_file f; rest

  abbrev pub all_inside : List GeneratedFile → List Command → Bool
  all_inside files log = every (λ f. w.is_inside log f.path) files

  abbrev pub requires : (List Command → Bool) → M (Unit {0})
  requires test log = raise_unless (test log) git_commit_error log

  abbrev pub write_and_commit : List GeneratedFile → CommitMessage → M Text
  write_and_commit files message = do
    write_all files
    run_git (git_add (paths files))
    run_git (git_commit message)
    commit_hash ← run_git git_rev_parse
    requires (λ _. length (strip commit_hash) == 40)
    pure (strip commit_hash)

  unfoldable pub commit : List GeneratedFile → CommitMessage → M Text
  commit files message = do
    requires w.is_dir
    requires w.has_git_dir
    requires (λ _. not (is_nil files))
    requires (all_inside files)
    write_and_commit files message
