-- ===== src/Router/Escalation/Failures.antt =====
-- A task that keeps failing (escalation.py): when it is escalated, and when it goes to a human.
use architect.Common.{
  ℕ, zero, suc, ◌≤◌, ◌≡◌, refl, true, false, ◌||◌, none, some, List, [], ◌∷◌, arith, leb,
  if◌then◌else◌,
}
use architect.Common.Dict.{Dict, lookup, lookup-insert_self, nat_eq}
use architect.TaskGraph.Models.{TaskId, ModelTier, tier_1, tier_2, tier_3}
use architect.Router.Escalation.{
  EscalationRecord, next_tier, tier_eq, consecutive, count_of, history_of, or_same, next_record,
  record_failure, is_last,
}

module _ (max_tier max_total : ℕ) where
  -- Failures of a task, the latest tier first.
  unfoldable pub fail_all :
      TaskId → List ModelTier → Dict TaskId EscalationRecord → Dict TaskId EscalationRecord
  fail_all task_id [] records = records
  fail_all task_id (tier ∷ tiers) records =
      (record_failure max_tier max_total task_id tier (fail_all task_id tiers records)).1

  -- `n` failures at one tier.
  abbrev pub repeat : ℕ → ModelTier → List ModelTier
  repeat zero tier = []
  repeat (suc n) tier = tier ∷ repeat n tier

  abbrev pub count : List ModelTier → ℕ
  count [] = 0
  count (tier ∷ tiers) = suc (count tiers)

  record_failure-lookup :
      (task_id : TaskId) (tier : ModelTier) (records : Dict TaskId EscalationRecord)
      → lookup task_id (record_failure max_tier max_total task_id tier records).1
        ≡ some (next_record max_tier max_total (lookup task_id records) task_id tier)
  unfolding record_failure
  record_failure-lookup task_id tier records =
      lookup-insert_self task_id
        (next_record max_tier max_total (lookup task_id records) task_id tier) records

  fail_all-count :
      (task_id : TaskId) (tiers : List ModelTier) (records : Dict TaskId EscalationRecord)
      → lookup task_id records ≡ none
      → count_of (lookup task_id (fail_all task_id tiers records)) ≡ count tiers
  unfolding fail_all next_record
  fail_all-count task_id [] records h = ground (arith, h)
  fail_all-count task_id (tier ∷ tiers) records h = ground (
    arith,
    record_failure-lookup task_id tier (fail_all task_id tiers records),
    fail_all-count task_id tiers records h,
  )

  -- A task with no record that fails as often as `max_total_failures` needs a human, at whichever
  -- tiers it failed.
  pub fail_all-needs_human :
      (task_id : TaskId) (tier : ModelTier) (tiers : List ModelTier)
      (records : Dict TaskId EscalationRecord)
      → lookup task_id records ≡ none
      → max_total ≤ suc (count tiers)
      → (record_failure max_tier max_total task_id tier
          (fail_all task_id tiers records)).0.needs_human
        ≡ true
  unfolding record_failure next_record
  fail_all-needs_human task_id tier tiers records h enough =
      let n = fail_all-count task_id tiers records h in ground (arith, n, enough)

  tier_eq_refl : (t : ModelTier) → tier_eq t t ≡ true
  tier_eq_refl tier_1 = refl
  tier_eq_refl tier_2 = refl
  tier_eq_refl tier_3 = refl

  fail_all-consecutive :
      (task_id : TaskId) (tier : ModelTier) (n : ℕ) (records : Dict TaskId EscalationRecord)
      → lookup task_id records ≡ none
      → consecutive tier (history_of (lookup task_id (fail_all task_id (repeat n tier) records)))
        ≡ n
  unfolding fail_all next_record consecutive
  fail_all-consecutive task_id tier zero records h = ground (arith, h)
  fail_all-consecutive task_id tier (suc n) records h = ground (
    arith,
    tier_eq_refl tier,
    record_failure-lookup task_id tier (fail_all task_id (repeat n tier) records),
    fail_all-consecutive task_id tier n records h,
  )

  count-repeat : (n : ℕ) (tier : ModelTier) → count (repeat n tier) ≡ n
  count-repeat zero tier = refl
  count-repeat (suc n) tier = omega (arith, count-repeat n tier)

  is_last-next_tier : (t : ModelTier) → is_last (next_tier t) ≡ tier_eq t tier_1
  is_last-next_tier tier_1 = refl
  is_last-next_tier tier_2 = refl
  is_last-next_tier tier_3 = refl

  -- A task with no record that fails again and again at one tier stays there until the failure that
  -- makes `max_tier_failures`, from which on the next tier is named. It needs a human from
  -- `max_total_failures` on, and at the highest tier from `max_tier_failures` on.
  pub fail_all-current_tier :
      (task_id : TaskId) (tier : ModelTier) (n : ℕ) (records : Dict TaskId EscalationRecord)
      → lookup task_id records ≡ none
      → ((record_failure max_tier max_total task_id tier
            (fail_all task_id (repeat n tier) records)).0.current_tier
          ≡ (if leb max_tier (suc n) then or_same (next_tier tier) tier else tier))
        × ((record_failure max_tier max_total task_id tier
              (fail_all task_id (repeat n tier) records)).0.needs_human
            ≡ (leb max_total (suc n)
                || (if leb max_tier (suc n) then tier_eq tier tier_1 else false)))
  unfolding record_failure next_record
  fail_all-current_tier task_id tier n records h =
      let c = fail_all-consecutive task_id tier n records h in
      let k = fail_all-count task_id (repeat n tier) records h in
      let r = count-repeat n tier in rw (c, k, r, is_last-next_tier tier) (ground arith)
