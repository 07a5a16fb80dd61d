-- ===== src/Ledger/Manager/Versions.antt =====
-- The versions of the ledger's rows and of their reconstructions (state_manager.py).
use architect.Common.{
  suc, ◌≤◌, ◌≡◌, sym, ap, refl, true, false, ◌&&◌, inl, inr, Option, none, some, List, [], ◌∷◌,
  arith, leb, ◌==◌, length, Bool-cases, Option-cases, if◌then◌else◌,
}
use architect.Common.Result.{Result, ok, and_then, and_then-eq-ok}
use architect.TaskGraph.Models.{Time}
use architect.Ledger.Json.{Object}
use architect.Ledger.Models.{LedgerVersion, WorldState, LedgerRow}
use architect.Ledger.Manager.{
  Pydantic, Error, insert_row, nearest_checkpoint, rows_between, replay, base_state, base_version,
  labelled, reconstruct_version, current_of,
}

pub state_eq : {a b : WorldState} → ◌≡◌ {A = Result Error WorldState} (ok a) (ok b) → a ≡ b
state_eq e = cc

row_eq : {a b : LedgerRow} → ◌≡◌ {A = Option LedgerRow} (some a) (some b) → a ≡ b
row_eq e = cc

module _ (py : Pydantic) where
  open py use {model_validate}

  -- A row is a delta, or a checkpoint whose snapshot is a state of the row's version.
  pub data IsSound (row : LedgerRow) : Type 0 where
    delta : row.is_checkpoint ≡ false → row.state_snapshot ≡ none → IsSound row
    checkpoint :
        (d : Object) (state : WorldState)
        → row.is_checkpoint ≡ true
        → row.state_snapshot ≡ some d
        → model_validate d ≡ some state
        → state.version ≡ row.version
        → IsSound row

  -- The rows, from the latest, have the versions n, ..., 2, 1.
  abbrev pub IsLedger : List LedgerRow → Type 0
  IsLedger [] = Unit
  IsLedger (row ∷ rows) = (row.version ≡ suc (length rows)) × IsSound row × IsLedger rows

  pub insert_row-IsLedger :
      (new : LedgerRow) (rows : List LedgerRow)
      → IsLedger rows
      → new.version ≡ suc (length rows)
      → insert_row new rows ≡ some (new ∷ rows)
  unfolding insert_row
  insert_row-IsLedger new [] l e = refl
  insert_row-IsLedger new (row ∷ rows) l e = ground (arith, e, l.0)

  pub nearest_checkpoint-IsSound :
      (v : LedgerVersion) (rows : List LedgerRow) (row : LedgerRow)
      → IsLedger rows
      → nearest_checkpoint v rows ≡ some row
      → IsSound row × (row.is_checkpoint ≡ true) × (row.version ≤ v)
  unfolding nearest_checkpoint
  nearest_checkpoint-IsSound v [] row l e = cc
  nearest_checkpoint-IsSound v (r ∷ rows) row l e =
      elim (Bool-cases (r.is_checkpoint && leb r.version v)) [
        | inl this ↦
            let same : r ≡ row = row_eq (ground (arith, this, e)) in
            rw (← same) (l.1, ground (arith, this), ground (arith, this))
        | inr other ↦ nearest_checkpoint-IsSound v rows row l.2 (ground (arith, other, e))
      ]

  -- The state that a reconstruction starts from has the version that it starts from.
  pub base_state-version :
      (now : Time) (v : LedgerVersion) (rows : List LedgerRow) (state : WorldState)
      → IsLedger rows
      → base_state py now (nearest_checkpoint v rows) ≡ ok state
      → state.version ≡ base_version py (nearest_checkpoint v rows)
  base_state-version now v rows state l h = elim (Option-cases (nearest_checkpoint v rows)) [
    | inl e ↦ ground (arith, e)
    | inr (row, e) ↦ elim (nearest_checkpoint-IsSound v rows row l e).0 [
      | delta plain no_snapshot ↦ ground (arith, e, no_snapshot)
      | checkpoint d there is_check has_snapshot is_valid is_version ↦
          ground (arith, e, has_snapshot, is_valid, is_version)
    ]
  ]

  pub reconstruct_version-version :
      (now : Time) (v : LedgerVersion) (rows : List LedgerRow) (state : WorldState)
      → IsLedger rows
      → reconstruct_version py now rows v ≡ ok state
      → state.version ≡ v
  unfolding reconstruct_version
  reconstruct_version-version now v rows state l h =
      let base = nearest_checkpoint v rows in
      let start = base_version py base in
      let (from, found, h1) =
        and_then-eq-ok (base_state py now base)
          (λ first.
            if start == v
            then ok first
            else and_then (replay py first (rows_between start v rows))
                λ last. ok (labelled py v last))
          h in
      let label = base_state-version now v rows from l found in
      elim (Bool-cases (start == v)) [
        | inl same ↦
            let is_from : from ≡ state = state_eq (ground (arith, h1, same)) in
            rw (← is_from) (ground (arith, label, same))
        | inr other ↦
            let h2 : and_then (replay py from (rows_between start v rows))
                  (λ last. ok (labelled py v last))
                ≡ ok state =
              ground (arith, h1, other) in
            let (last, replayed, h3) =
              and_then-eq-ok (replay py from (rows_between start v rows))
                (λ last. ok (labelled py v last)) h2 in
            sym (ap (λ (x : WorldState). x.version) (state_eq {a = labelled py v last} h3))
      ]

  pub current_of-version :
      (now : Time) (rows : List LedgerRow) (state : WorldState)
      → IsLedger rows
      → current_of py now rows ≡ ok state
      → state.version ≡ length rows
  unfolding current_of
  current_of-version now [] state l h = ground arith
  current_of-version now (row ∷ rows) state l h = elim l.1 [
    | delta plain no_snapshot ↦
        ground (
          arith,
          no_snapshot,
          l.0,
          reconstruct_version-version now row.version (row ∷ rows) state l,
        )
    | checkpoint d there is_check has_snapshot is_valid is_version ↦
        ground (arith, l.0, is_check, has_snapshot, is_valid, is_version)
  ]
