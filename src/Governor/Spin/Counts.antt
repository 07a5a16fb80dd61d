-- ===== src/Governor/Spin/Counts.antt =====
-- What the spin detector (spin_detector.py) knows after a series of retries.
use architect.Common.{
  ℕ, suc, ◌+◌, ◌≤◌, ◌<◌, ◌≡◌, refl, Bool, true, false, ◌&&◌, inl, inr, List, [], ◌∷◌, ◌++◌, ◌==◌,
  arith, length, length-append, Bool-cases, if◌then◌else◌,
}
use architect.TaskGraph.Models.{AgentId, TaskId}
use architect.Governor.Spin.{
  Entry, max_tracked, has_key, tracked, pop, set_last, evict, next_entry, record_retry,
}

-- A call of `record_retry`.
pub record Retry : Type 0 where
  pub agent_id : AgentId
  pub task_id : TaskId
  pub has_diff : Bool
  pub tokens : ℕ

-- The calls in order, the latest first.
unfoldable pub record_all : ℕ → List Retry → List Entry
record_all max_retries [] = []
record_all max_retries (r ∷ rs) =
    (record_retry max_retries r.agent_id r.task_id r.has_diff r.tokens
      (record_all max_retries rs)).1

-- Retries and tokens of an agent on a task since its last diff, by the calls alone.
abbrev pub plus_one : ℕ → ℕ × ℕ → ℕ × ℕ
plus_one tokens (count, spent) = (count + 1, spent + tokens)

unfoldable pub since_last_diff : AgentId → TaskId → List Retry → ℕ × ℕ
since_last_diff a t [] = (0, 0)
since_last_diff a t (r ∷ rs) =
    let rest = since_last_diff a t rs in
    if (r.agent_id == a) && (r.task_id == t)
    then (if r.has_diff then (0, 0) else plus_one r.tokens rest)
    else rest

length-pop : (a : AgentId) (t : TaskId) (d : List Entry) → length (pop a t d) ≤ length d
unfolding pop
length-pop a t [] = omega arith
length-pop a t (e ∷ d) = ground (arith, length-pop a t d)

length-evict : (d : List Entry) → length (evict d) ≤ max_tracked
unfolding evict
length-evict [] = omega arith
length-evict (e ∷ d) = ground (arith, length-evict d)

length-evict_le : (d : List Entry) → length (evict d) ≤ length d
unfolding evict
length-evict_le [] = omega arith
length-evict_le (e ∷ d) = ground (arith, length-evict_le d)

length-set_last : (e : Entry) (d : List Entry) → length (set_last e d) ≤ suc (length d)
length-set_last e d =
    omega (
      arith,
      length-append (pop e.agent_id e.task_id d) (e ∷ []),
      length-pop e.agent_id e.task_id d,
    )

evict-small : (d : List Entry) → length d ≤ max_tracked → evict d ≡ d
unfolding evict
evict-small [] h = refl
evict-small (e ∷ d) h = ground arith

tracked-pop_self : (a : AgentId) (t : TaskId) (d : List Entry) → tracked a t (pop a t d) ≡ (0, 0)
unfolding tracked pop
tracked-pop_self a t [] = refl
tracked-pop_self a t (e ∷ d) = ground (arith, tracked-pop_self a t d)

tracked-pop_other :
    (a b : AgentId) (t u : TaskId) (d : List Entry)
    → ((b == a) && (u == t)) ≡ false
    → tracked a t (pop b u d) ≡ tracked a t d
unfolding tracked pop
tracked-pop_other a b t u [] h = refl
tracked-pop_other a b t u (e ∷ d) h = ground (arith, tracked-pop_other a b t u d h)

tracked-append_other :
    (a : AgentId) (t : TaskId) (d : List Entry) (e : Entry)
    → has_key a t e ≡ false
    → tracked a t (d ++ e ∷ []) ≡ tracked a t d
unfolding tracked
tracked-append_other a t [] e h = ground arith
tracked-append_other a t (x ∷ d) e h = ground (arith, tracked-append_other a t d e h)

tracked-set_last :
    (a : AgentId) (t : TaskId) (d : List Entry) (e : Entry)
    → has_key a t e ≡ true
    → tracked a t (pop a t d ++ e ∷ []) ≡ (e.retry_count, e.tokens)
unfolding tracked pop
tracked-set_last a t [] e h = ground arith
tracked-set_last a t (x ∷ d) e h = ground (arith, tracked-set_last a t d e h)

length-record_retry :
    (max_retries : ℕ) (a : AgentId) (t : TaskId) (has_diff : Bool) (tokens : ℕ) (d : List Entry)
    → length (record_retry max_retries a t has_diff tokens d).1 ≤ suc (length d)
unfolding record_retry
length-record_retry m a t true tokens d = omega (arith, length-pop a t d)
length-record_retry m a t false tokens d =
    let e = next_entry a t tokens (tracked a t d) in
    omega (arith, length-set_last e d, length-evict_le (set_last e d))

length-record_all : (m : ℕ) (rs : List Retry) → length (record_all m rs) ≤ length rs
unfolding record_all
length-record_all m [] = omega arith
length-record_all m (r ∷ rs) = omega (
  arith,
  length-record_all m rs,
  length-record_retry m r.agent_id r.task_id r.has_diff r.tokens (record_all m rs),
)

-- After any calls of `record_retry`, the detector tracks no more agents on tasks than its limit.
pub record_all-max_tracked : (m : ℕ) (rs : List Retry) → length (record_all m rs) ≤ max_tracked
unfolding record_all record_retry
record_all-max_tracked m [] = omega arith
record_all-max_tracked m (r ∷ rs) =
    let d = record_all m rs in
    let e = next_entry r.agent_id r.task_id r.tokens (tracked r.agent_id r.task_id d) in
    ground (
      arith,
      record_all-max_tracked m rs,
      length-pop r.agent_id r.task_id d,
      length-evict (set_last e d),
    )

-- One call, as long as nothing is evicted.
tracked-record_retry :
    (m : ℕ) (a : AgentId) (t : TaskId) (r : Retry) (d : List Entry)
    → length d < max_tracked
    → tracked a t (record_retry m r.agent_id r.task_id r.has_diff r.tokens d).1 ≡ (
        if (r.agent_id == a) && (r.task_id == t)
        then (if r.has_diff then (0, 0) else plus_one r.tokens (tracked a t d))
        else tracked a t d)
unfolding record_retry
tracked-record_retry m a t r d h =
    let b = r.agent_id in
    let u = r.task_id in
    let e = next_entry b u r.tokens (tracked b u d) in
    let kept : evict (set_last e d) ≡ set_last e d =
      evict-small (set_last e d) (omega (arith, length-set_last e d, h)) in
    elim (Bool-cases ((b == a) && (u == t))) [
      | inl this ↦
          let same_a : b ≡ a = ground (arith, this) in
          let same_t : u ≡ t = ground (arith, this) in
          ground (
            arith,
            this,
            kept,
            same_a,
            same_t,
            tracked-pop_self a t d,
            tracked-set_last a t d e (ground (arith, this)),
          )
      | inr other ↦ ground (
        arith,
        other,
        kept,
        tracked-pop_other a b t u d other,
        tracked-append_other a t (pop b u d) e other,
      )
    ]

-- As long as the calls are no more than the limit, what is tracked of an agent on a task is the
-- number of its retries, and their tokens, since its last diff.
pub record_all-since_last_diff :
    (m : ℕ) (a : AgentId) (t : TaskId) (rs : List Retry)
    → length rs ≤ max_tracked
    → tracked a t (record_all m rs) ≡ since_last_diff a t rs
unfolding record_all since_last_diff tracked
record_all-since_last_diff m a t [] h = refl
record_all-since_last_diff m a t (r ∷ rs) h =
    let small = length-record_all m rs in
    rw (tracked-record_retry m a t r (record_all m rs) (omega arith))
      (rw (record_all-since_last_diff m a t rs (omega arith)) refl)
