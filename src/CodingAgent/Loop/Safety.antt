-- ===== src/CodingAgent/Loop/Safety.antt =====
-- When the coding agent's loop (agent.py) writes to the repository (git.py), by its log.
use architect.Common.{
  ◌≡◌, refl, sym, ap, ◌∙◌, subst, inl, inr, Bool, true, not, List, [], ◌∷◌, length, ◌==◌,
  Bool-cases,
}
use architect.Common.Result.{ok, pure}
use architect.Common.Text.{Text, strip}
use architect.Common.Triple.{Triple, Keeps, Triple-bind, Triple-weaken, Keeps-then, Keeps-bind}
use architect.CodingAgent.Models.{
  GeneratedFile, CommitMessage, Command, write_text, git_add, git_commit, git_rev_parse, World,
}
use architect.CodingAgent.Git.{
  M, paths, run_git, write_file, write_all, all_inside, requires, write_and_commit, commit, is_nil,
}
use architect.CodingAgent.Loop.{try_commit}
use architect.CodingAgent.Loop.Commits.{last_run, runs, IsFile, IsRun, IsTested, IsSafe}

-- After the run `start` of the files, in which no errors were found.
module _ (w : World) (files : List GeneratedFile) (start : List Command)
    (run : IsRun w files [] start) where
  abbrev pub Since : List Command → Type 0
  Since log = IsSafe w log × (last_run log ≡ start) × (runs log ≡ runs start)

  abbrev Inside : List Command → Type 0
  Inside log =
      IsSafe w log
      × (last_run log ≡ start)
      × (runs log ≡ runs start)
      × (all_inside w files start ≡ true)

  Inside-IsTested : (log : List Command) → Inside log → IsTested w files log
  Inside-IsTested log (s, l, n, i) = record {
    was_run = subst (λ t. IsRun w files [] t) (sym l) run;
    inside = subst (λ t. all_inside w files t ≡ true) (sym l) i;
  }

  Inside-Since : (log : List Command) → Inside log → Since log
  Inside-Since log (s, l, n, i) = (s, l, n)

  start-last_run : last_run start ≡ start
  start-last_run = rw run.is_run refl

  write_file-Inside :
      (f : GeneratedFile) → IsFile f.path f.content files → Keeps Inside (write_file w f)
  unfolding write_file
  write_file-Inside f m = record {
    at = λ log h.
        let wrote : Inside (write_text f.path f.content ∷ log) =
          (((files, Inside-IsTested log h, m), h.0), h.1, h.2, h.3) in
        elim (Bool-cases (w.write_fails (write_text f.path f.content ∷ log))) [
          | inl e ↦ rw e wrote
          | inr e ↦ rw e wrote
        ];
  }

  write_all-Inside :
      (fs : List GeneratedFile)
      → ((p c : Text) → IsFile p c fs → IsFile p c files)
      → Keeps Inside (write_all w fs)
  unfolding write_all
  write_all-Inside [] m = record { at = λ log h. h }
  write_all-Inside (f ∷ fs) m =
      Keeps-then (write_file w f) (write_all w fs)
        (write_file-Inside f (m f.path f.content (inl (refl, refl))))
        (write_all-Inside fs (λ p c i. m p c (inr i)))

  run_git-Inside :
      (c : Command)
      → ((log : List Command) → Inside log → Inside (c ∷ log))
      → Keeps Inside (run_git w c)
  unfolding run_git
  run_git-Inside c h = record { at = h }

  git_add-Inside : Keeps Inside (run_git w (git_add (paths files)))
  git_add-Inside =
      run_git-Inside (git_add (paths files))
        (λ log h. (((files, Inside-IsTested log h, refl), h.0), h.1, h.2, h.3))

  git_commit-Inside : (m : CommitMessage) → Keeps Inside (run_git w (git_commit m))
  git_commit-Inside m =
      run_git-Inside (git_commit m)
        (λ log h. (((files, Inside-IsTested log h), h.0), h.1, h.2, h.3))

  git_rev_parse-Inside : Keeps Inside (run_git w git_rev_parse)
  git_rev_parse-Inside = run_git-Inside git_rev_parse (λ log h. ((tt, h.0), h.1, h.2, h.3))

  requires-Keeps :
      (P : List Command → Type 0) (test : List Command → Bool) → Keeps P (requires w test)
  requires-Keeps P test = record {
    at = λ log h. elim (Bool-cases (test log)) [ inl e ↦ rw e h | inr e ↦ rw e h ];
  }

  write_and_commit-Inside : (m : CommitMessage) → Keeps Inside (write_and_commit w files m)
  write_and_commit-Inside m =
      Keeps-then (write_all w files) _ (write_all-Inside files (λ p c i. i)) (
        Keeps-then (run_git w (git_add (paths files))) _ git_add-Inside (
          Keeps-then (run_git w (git_commit m)) _ (git_commit-Inside m) (
            Keeps-bind (run_git w git_rev_parse) _ git_rev_parse-Inside (λ out.
              Keeps-then (requires w (λ _. length (strip out) == 40)) (pure (strip out))
                (requires-Keeps Inside (λ _. length (strip out) == 40))
                (record { at = λ log h. h })))))

  abbrev pub AtStart : List Command → Type 0
  AtStart log = IsSafe w log × (log ≡ start)

  AtStart-Since : (log : List Command) → AtStart log → Since log
  AtStart-Since log (s, e) = (s, ap last_run e ∙ start-last_run, ap runs e)

  requires-Inside :
      Triple AtStart
        (requires w (all_inside w files))
        (λ r log. ((a : Unit {0}) → r ≡ ok a → Inside log) × Since log)
  requires-Inside = record {
    at = λ log h. elim (Bool-cases (all_inside w files log)) [
      | inl e ↦
          let since = AtStart-Since log h in
          let inside = subst (λ t. all_inside w files t ≡ true) h.1 e in
          rw e ((λ a _. (since.0, since.1, since.2, inside)), since)
      | inr e ↦ rw e ((λ a k. cc), AtStart-Since log h)
    ];
  }

  commit-Since : (m : CommitMessage) → Triple AtStart (commit w files m) (λ _. Since)
  unfolding commit
  commit-Since m =
      let next = λ (test : List Command → Bool) (n : M Text) (h : Triple AtStart n (λ _. Since)).
        Triple-bind {R = λ _ log. AtStart log} {Q = λ _ log. Since log} (requires w test) (λ _. n)
          (requires-Keeps AtStart test) (λ _. h) (λ e log k. AtStart-Since log k) in
      next w.is_dir _ (
        next w.has_git_dir _ (
          next (λ _. not (is_nil files)) _
            (Triple-bind {R = λ r log. ((a : Unit {0}) → r ≡ ok a → Inside log) × Since log}
              (requires w (all_inside w files)) (λ _. write_and_commit w files m) requires-Inside
              (λ a.
                Triple-weaken (write_and_commit w files m) (λ log k. k.0 a refl)
                  (λ r log k. Inside-Since log k) (write_and_commit-Inside m))
              (λ e log k. k.1))))

  pub try_commit-Since : (m : CommitMessage) → Triple AtStart (try_commit w files m) (λ _. Since)
  unfolding try_commit
  try_commit-Since m = record { at = λ log h. (commit-Since m).at log h }
