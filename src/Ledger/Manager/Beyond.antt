-- ===== src/Ledger/Manager/Beyond.antt =====
-- `get_version` (state_manager.py) of a version that the ledger has not reached.
use architect.Common.{
  ◌≤◌, ◌<◌, ◌≡◌, ap, refl, false, ◌&&◌, List, [], ◌∷◌, arith, ltb, leb, ◌==◌, length, filter,
  if◌then◌else◌,
}
use mathlib.Core.List.{reverse}
use architect.Common.Result.{ok, and_then-eq-ok}
use architect.TaskGraph.Models.{Time}
use architect.Ledger.Models.{LedgerVersion, WorldState, LedgerRow}
use architect.Ledger.Manager.{
  Pydantic, nearest_checkpoint, rows_between, replay, base_state, base_version, labelled,
  get_version, replay_some,
}
use architect.Ledger.Manager.Versions.{IsLedger, state_eq}

module _ (py : Pydantic) where
  -- The rows have no version behind their number.
  filter-beyond :
      (start v w : LedgerVersion) (rows : List LedgerRow)
      → IsLedger py rows
      → length rows ≤ w
      → w ≤ v
      → filter (λ row. ltb start row.version && leb row.version v) rows
        ≡ filter (λ row. ltb start row.version && leb row.version w) rows
  filter-beyond start v w [] l h k = refl
  filter-beyond start v w (row ∷ rows) l h k =
      ground (arith, l.0, filter-beyond start v w rows l.2 (omega arith) k)

  nearest_checkpoint-beyond :
      (v w : LedgerVersion) (rows : List LedgerRow)
      → IsLedger py rows
      → length rows ≤ w
      → w ≤ v
      → nearest_checkpoint v rows ≡ nearest_checkpoint w rows
  unfolding nearest_checkpoint
  nearest_checkpoint-beyond v w [] l h k = refl
  nearest_checkpoint-beyond v w (row ∷ rows) l h k =
      ground (arith, l.0, nearest_checkpoint-beyond v w rows l.2 (omega arith) k)

  rows_between-beyond :
      (start v w : LedgerVersion) (rows : List LedgerRow)
      → IsLedger py rows
      → length rows ≤ w
      → w ≤ v
      → rows_between start v rows ≡ rows_between start w rows
  unfolding rows_between
  rows_between-beyond start v w rows l h k = ap reverse (filter-beyond start v w rows l h k)

  base_version-le :
      (v : LedgerVersion) (rows : List LedgerRow)
      → IsLedger py rows
      → base_version py (nearest_checkpoint v rows) ≤ length rows
  unfolding nearest_checkpoint
  base_version-le v [] l = omega arith
  base_version-le v (row ∷ rows) l = ground (arith, l.0, base_version-le v rows l.2)

  -- A checkpoint behind a delta is of an older version.
  base_version-delta :
      (row : LedgerRow) (rows : List LedgerRow)
      → IsLedger py (row ∷ rows)
      → row.is_checkpoint ≡ false
      → base_version py (nearest_checkpoint row.version (row ∷ rows)) < row.version
  unfolding nearest_checkpoint
  base_version-delta row rows l plain =
      ground (arith, plain, l.0, base_version-le row.version rows l.2)

  replay_some-labelled :
      (from state : WorldState) (v w : LedgerVersion) (rows : List LedgerRow)
      → replay_some py from w rows ≡ ok state
      → replay_some py from v rows ≡ ok (labelled py v state)
  replay_some-labelled from state v w [] h = cc
  replay_some-labelled from state v w (row ∷ rows) h =
      let (last, replayed, e) =
        and_then-eq-ok (replay py from (row ∷ rows)) (λ last. ok (labelled py w last)) h in
      let same : labelled py w last ≡ state = state_eq e in rw (← same) (ground (arith, replayed))

  -- Where the ledger is in sequence and its latest row is a delta, `get_version` of a version that does not exist yet gives the
  -- latest state under that version, if the latest version itself can be read.
  pub get_version-beyond :
      (now : Time) (v : LedgerVersion) (row : LedgerRow) (rows : List LedgerRow)
      (state : WorldState)
      → IsLedger py (row ∷ rows)
      → row.is_checkpoint ≡ false
      → row.version < v
      → get_version py now (row ∷ rows) row.version ≡ ok state
      → get_version py now (row ∷ rows) v ≡ ok (labelled py v state)
  unfolding get_version
  get_version-beyond now v row rows state l plain h found =
      let all = row ∷ rows in
      let w = row.version in
      let base = nearest_checkpoint w all in
      let start = base_version py base in
      let older = base_version-delta row rows l plain in
      let (from, is_from, h1) =
        and_then-eq-ok (base_state py now base)
          (λ from. if start == w then ok from else replay_some py from w (rows_between start w all))
          found in
      let h2 : replay_some py from w (rows_between start w all) ≡ ok state =
        ground (arith, h1, older) in
      let h3 = replay_some-labelled from state v w (rows_between start w all) h2 in
      let same_base = nearest_checkpoint-beyond v w all l (omega (arith, l.0)) (omega (arith, h)) in
      let same_rows = rows_between-beyond start v w all l (omega (arith, l.0)) (omega (arith, h)) in
      rw same_base (rw is_from (ground (arith, older, h, h3, same_rows)))
