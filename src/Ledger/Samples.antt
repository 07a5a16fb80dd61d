-- ===== src/Ledger/Samples.antt =====
-- A concrete stand-in for pydantic, which shows that what the model asks of it can be met: it dumps
-- and reads the version, the time and the tokens that remain.
use architect.Common.{ℕ, ◌≡◌, refl, Option, some, subst}
use architect.Common.Text.{Text, codes}
use architect.TaskGraph.Models.{Time}
use architect.Ledger.Json.{Number, Json, number, object, Object, no_fields, field, split, walk}
use architect.Ledger.Models.{LedgerVersion, WorldState, pristine}
use architect.Ledger.Manager.{Pydantic}

abbrev plain_number : Json → Number
plain_number (number n) = n
plain_number _ = record { plus = 0; minus = 0; shift = 0 }

abbrev whole_number : ℕ → Json
whole_number n = number (record { plus = n; minus = 0; shift = 0 })

abbrev dump : WorldState → Object
dump s = field (codes "version") (whole_number s.version) (
    field (codes "updated_at") (whole_number s.updated_at) (
      field (codes "budget")
        (object (field (codes "remaining_tokens") (number s.budget.remaining_tokens) no_fields))
        no_fields))

abbrev at_path : Object → Text → Number
at_path d path = plain_number (walk (split path) (object d))

abbrev build : Object → WorldState
build d =
    let fresh = pristine (at_path d (codes "updated_at")).plus in
    record fresh {
      version = (at_path d (codes "version")).plus;
      budget = record fresh.budget {
        remaining_tokens = at_path d (codes "budget.remaining_tokens");
      };
    }

built :
    (d : Object) (state : WorldState)
    → ◌≡◌ {A = Option WorldState} (some (build d)) (some state)
    → build d ≡ state
built d state h = cc

pub build-dump :
    (d : Object) (state : WorldState) (v : LedgerVersion) (t : Time)
    → ◌≡◌ {A = Option WorldState} (some (build d)) (some state)
    → ◌≡◌ {A = Option WorldState}
        (some (build (dump (record state { version = v; updated_at = t }))))
        (some (record state { version = v; updated_at = t }))
unfolding walk split
build-dump d state v t h =
    subst
      (λ (x : WorldState).
        ◌≡◌ {A = Option WorldState} (some (build (dump (record x { version = v; updated_at = t }))))
          (some (record x { version = v; updated_at = t })))
      (built d state h) refl

pub build-pristine :
    (t : Time) → ◌≡◌ {A = Option WorldState} (some (build (dump (pristine t)))) (some (pristine t))
unfolding walk split
build-pristine t = refl

abbrev pub plain_pydantic : Pydantic
plain_pydantic = record {
  model_dump = dump;
  model_validate = λ d. some (build d);
  validate-pristine = build-pristine;
  validate-dump = build-dump;
}
