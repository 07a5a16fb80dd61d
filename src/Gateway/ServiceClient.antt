-- ===== src/Gateway/ServiceClient.antt =====
-- `ServiceClient._request`, apps/api-gateway/src/api_gateway/service_client.py. The services are the
-- parameter `respond`: what an attempt meets. Times to sleep are in milliseconds, timeouts in seconds.
pub mod Retry
use architect.Common.{
  ℕ, ◌+◌, ◌*◌, zero, suc, String, Bool, true, false, ◌||◌, Option, none, some, List, [], ◌∷◌, ◌++◌,
  ◌==◌, ltb, if◌then◌else◌,
}
use architect.Common.Text.{Text, codes, text_beq}
use architect.Ledger.Json.{Object}
use architect.Common.Result.{
  Result, ok, err, Action, pure, raise, modify, raise_unless, ◌>>=◌, ◌>>◌,
}

-- What an attempt meets: the body of a 2xx response, an exception of httpx, or any other one.
pub data Reply : Type 0 where
  json : Text → Reply
  connect_error : Text → Reply
  status_error : ℕ → Reply
  other_error : Text → Reply

pub data Error : Type 0 where
  not_started : Error
  unknown_service : Text → Error
  connect_failed : Text → Error
  status_failed : ℕ → Error
  other_failed : Text → Error
  no_exception : Error

pub data Command : Type 0 where
  requested : (method url : Text) → (timeout : ℕ) → (kwargs : Object) → Command
  slept : ℕ → Command

-- What a client does; the latest first.
abbrev pub M : Type 0
M = Action (List Command) Error Text

abbrev lookup : {A : Type 0} → Text → List (String × A) → Option A
lookup t [] = none
lookup t ((name, x) ∷ entries) = if text_beq t (codes name) then some x else lookup t entries

abbrev service_url_map : List (String × String)
service_url_map =
    ("task-graph", "task_graph_url")
    ∷ ("world-state", "world_state_url")
    ∷ ("sandbox", "sandbox_url")
    ∷ ("eval-engine", "eval_engine_url")
    ∷ ("coding-agent", "coding_agent_url")
    ∷ ("spec-engine", "spec_engine_url")
    ∷ ("router", "multi_model_router_url")
    ∷ ("codebase", "codebase_comprehension_url")
    ∷ ("comm-bus", "agent_comm_bus_url")
    ∷ ("knowledge-memory", "knowledge_memory_url")
    ∷ ("economic-governor", "economic_governor_url")
    ∷ ("human-interface", "human_interface_url")
    ∷ []

abbrev service_timeouts : List (String × ℕ)
service_timeouts =
    ("spec-engine", 180) ∷ ("coding-agent", 180) ∷ ("eval-engine", 120) ∷ ("router", 120) ∷ []

abbrev get_or : Option ℕ → ℕ → ℕ
get_or none d = d
get_or (some n) d = n

-- The read timeout of a service.
unfoldable pub timeout_for_service : Text → ℕ
timeout_for_service service = get_or (lookup service service_timeouts) 30

-- `0.5 * (2**attempt)` seconds.
abbrev pub backoff : ℕ → ℕ
backoff zero = 500
backoff (suc attempt) = 2 * backoff attempt

abbrev pub do_command : Command → M → M
do_command c m s = m (c ∷ s)

abbrev pub raise_last : Option Error → M
raise_last none = raise no_exception
raise_last (some e) = raise e

-- The clauses of the `try`, then the rest of the loop with `last_exc`.
unfoldable pub on_reply : ℕ → Reply → (Option Error → M) → M
on_reply attempt (json body) continue = pure body
on_reply attempt (connect_error e) continue =
    if ltb attempt 2
    then do_command (slept (backoff attempt)) (continue (some (connect_failed e)))
    else continue (some (connect_failed e))
on_reply attempt (status_error code) continue =
    if ltb code 500 || (attempt == 2)
    then raise (status_failed code)
    else do_command (slept (backoff attempt)) (continue (some (status_failed code)))
on_reply attempt (other_error e) continue = raise (other_failed e)

-- The environment: the attributes of the configuration, and what each attempt meets.
pub record World : Type 0 where
  pub getattr : String → Text
  pub respond : ℕ → Reply

module _ (w : World) where
  unfoldable pub base_url : Text → Result Error Text
  base_url service = url_of (lookup service service_url_map)
    where
      url_of : Option String → Result Error Text
      url_of none = err (unknown_service service)
      url_of (some attr) = ok (w.getattr attr)

  -- `for attempt in range(3)`, the attempts left as a list.
  unfoldable pub attempt_all : Command → List ℕ → Option Error → M
  attempt_all c [] last_exc = raise_last last_exc
  attempt_all c (attempt ∷ attempts) last_exc =
      do_command c (on_reply attempt (w.respond attempt) (attempt_all c attempts))

  abbrev with_url : Text → Text → Text → Object → Result Error Text → M
  with_url service method path kwargs (err e) = raise e
  with_url service method path kwargs (ok url) =
      attempt_all (requested method (url ++ path) (timeout_for_service service) kwargs)
        (0 ∷ 1 ∷ 2 ∷ []) none

  -- First, whether the client is started; last, the keyword arguments: the body and the query.
  unfoldable pub request : Bool → Text → Text → Text → Object → M
  request true service method path kwargs = with_url service method path kwargs (base_url service)
  request false service method path kwargs = raise not_started
