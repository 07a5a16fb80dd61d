-- ===== src/Router/Tests.antt =====
-- The escalation policy at inputs that meet the hypotheses of its theorems.
use architect.Common.{◌≡◌, refl, false, [], ◌∷◌}
use architect.TaskGraph.Models.{tier_2, tier_3}
use architect.Router.Escalation.{record_failure}
use architect.Router.Escalation.Failures.{fail_all, fail_all-current_tier}

fail_all-current_tier_example :
    ((record_failure 2 5 7 tier_3 (fail_all 2 5 7 (tier_3 ∷ []) [])).0.current_tier ≡ tier_2)
    × ((record_failure 2 5 7 tier_3 (fail_all 2 5 7 (tier_3 ∷ []) [])).0.needs_human ≡ false)
fail_all-current_tier_example = fail_all-current_tier 2 5 7 tier_3 1 [] refl
