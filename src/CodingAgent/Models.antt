-- ===== src/CodingAgent/Models.antt =====
-- The data of the coding agent, services/coding-agent/src/coding_agent/models.py, and of its sandbox,
-- libs/architect-sandbox-client/src/architect_sandbox_client/models.py: the fields that its loop reads.
use architect.Common.{ℕ, Bool, Option, List}
use architect.Common.Text.{Text}
use architect.TaskGraph.Models.{TaskId, AgentId}

-- `negsuc n` is -(n + 1).
pub data ℤ : Type 0 where
  pos : ℕ → ℤ
  negsuc : ℕ → ℤ

pub record GeneratedFile : Type 0 where
  pub path : Text
  pub content : Text
  pub is_test : Bool

pub record CommandResult : Type 0 where
  pub exit_code : ℤ
  pub stdout : Text
  pub stderr : Text

-- An error that is reported: a line of a command's output, or a command with what it printed.
pub data Error : Type 0 where
  error_line : Text → Error
  command_failed : ℤ → Text → Error

-- The texts that the message is made of, and the numbers of files.
pub record CommitMessage : Type 0 where
  pub title : Text
  pub src_count : ℕ
  pub test_count : ℕ
  pub task_id : TaskId
  pub agent_id : AgentId

pub record AgentRun : Type 0 where
  pub id : AgentId
  pub task_id : TaskId
  pub title : Text
  pub model_id : Text

pub record AgentOutput : Type 0 where
  pub task_id : TaskId
  pub agent_id : AgentId
  pub files : List GeneratedFile
  pub commit_message : CommitMessage
  pub commit_hash : Text
  pub reasoning_summary : Text
  pub tokens_used : ℕ
  pub model_id : Text

-- What the agent does, besides the calls that only read.
pub data Command : Type 0 where
  ask_plan ask_code : Command
  ask_fix : List GeneratedFile → List Error → Command
  execute_files : List GeneratedFile → Command
  write_text : Text → Text → Command
  git_add : List Text → Command
  git_commit : CommitMessage → Command
  git_rev_parse : Command
  publish_completed : AgentId → ℕ → Command

pub data GitReply : Type 0 where
  exit_zero : Text → GitReply
  exit_nonzero : GitReply
  not_started : GitReply

-- The surroundings, by the log of what was done, the latest first: the model's plan, the code blocks
-- with a path in its replies, the results of the sandbox, where one does not raise; the repository.
pub record World : Type 0 where
  pub plan : List Command → Option Text
  pub blocks : List Command → Option (List (Text × Text))
  pub results : List Command → Option (List CommandResult)
  pub total_tokens : List Command → ℕ
  pub is_dir : List Command → Bool
  pub has_git_dir : List Command → Bool
  pub is_inside : List Command → Text → Bool
  pub write_fails : List Command → Bool
  pub git : List Command → GitReply
  pub refused : List Command → Bool

pub data Exception : Type 0 where
  git_commit_error : Exception
  other_error : Exception
