-- ===== src/TaskGraph/Scheduler/Restart.antt =====
-- What `load_from_db` (scheduler.py) brings back after a restart, over its pages, in whatever order the
-- database serves each of them.
use architect.Common.{
  ℕ, zero, suc, ◌+◌, ◌-◌, ◌<◌, ◌≤◌, ◌≡◌, refl, ◌∙◌, ap, Bool, true, List, [], ◌∷◌, ◌++◌, All, arith,
  length, length-append, map, ltb, if◌then◌else◌, Bool-cases, inl, inr,
}
use architect.Common.Result.{ok}
use architect.TaskGraph.DiGraph.{DiGraph}
use architect.TaskGraph.Lock.{Redis}
use architect.TaskGraph.Repo.{TaskRow, Database, list_all}
use architect.TaskGraph.Scheduler.{Event, State}
use architect.TaskGraph.Scheduler.Load.{load_pages, load_rows, load_from_db, is_empty, domain_task}

length-list_all :
    (db : Database) (table : List TaskRow) (b offset : ℕ)
    → b ≤ 1000
    → length (list_all db table b offset)
      ≡ (if ltb b (length table - offset) then b else length table - offset)
unfolding list_all
length-list_all db table b offset h =
    let uncapped : (if ltb 1000 b then 1000 else b) ≡ b = ground arith in
    ap (λ l. length (db.page l offset table)) uncapped ∙ db.length-page b offset table

empty_length : (rows : List TaskRow) → is_empty rows ≡ true → length rows ≡ 0
empty_length [] h = refl
empty_length (r ∷ rs) h = cc

load_pages-suc :
    (db : Database) (fuel b offset : ℕ) (table : List TaskRow)
    → load_pages db (suc fuel) b offset table ≡ (
        if is_empty (list_all db table b offset)
        then []
        else if ltb (length (list_all db table b offset)) b
        then list_all db table b offset
        else list_all db table b offset ++ load_pages db fuel b (offset + b) table)
unfolding load_pages
load_pages-suc db fuel b offset table = refl

-- The loop collects as many rows as there are behind its offset, if it has more rounds than that.
length-load_pages :
    (db : Database) (fuel b offset : ℕ) (table : List TaskRow)
    → 0 < b
    → b ≤ 1000
    → length table - offset < fuel
    → length (load_pages db fuel b offset table) ≡ length table - offset
length-load_pages db zero b offset table pos cap enough = elim enough [ ]
length-load_pages db (suc fuel) b offset table pos cap enough =
    let batch = list_all db table b offset in
    let size = length-list_all db table b offset cap in
    let rest = load_pages db fuel b (offset + b) table in
    rw (load_pages-suc db fuel b offset table) (elim (Bool-cases (is_empty batch)) [
      | inl e ↦ rw e (ground (arith, size, empty_length batch e))
      | inr e ↦ elim (Bool-cases (ltb (length batch) b)) [
        | inl short ↦ rw (e, short) (ground (arith, size, short))
        | inr full ↦
            let whole : length batch ≡ b = ground (arith, size, full) in
            let behind : b ≤ length table - offset = ground (arith, size, full) in
            let later = length-load_pages db fuel b (offset + b) table pos cap (omega arith) in
            rw (e, full) (omega (arith, length-append batch rest, whole, behind, later))
      ]
    ])

All-append : (P : TaskRow → Type 0) (xs ys : List TaskRow) → All P xs → All P ys → All P (xs ++ ys)
All-append P [] ys h k = k
All-append P (x ∷ xs) ys h k = (h.0, All-append P xs ys h.1 k)

-- Every row that is collected is one of the table.
pub load_pages-All :
    (db : Database) (P : TaskRow → Type 0) (fuel b offset : ℕ) (table : List TaskRow)
    → All P table
    → All P (load_pages db fuel b offset table)
unfolding load_pages list_all
load_pages-All db P zero b offset table h = tt
load_pages-All db P (suc fuel) b offset table h =
    let batch = list_all db table b offset in
    let here : All P batch = db.page-All P _ offset table h in
    let later = load_pages-All db P fuel b (offset + b) table h in
    rw (load_pages-suc db fuel b offset table) (elim (Bool-cases (is_empty batch)) [
      | inl e ↦ rw e tt
      | inr e ↦ elim (Bool-cases (ltb (length batch) b)) [
        | inl short ↦ rw (e, short) here
        | inr full ↦ rw (e, full) (All-append P batch _ here later)
      ]
    ])

length-map : (rows : List TaskRow) → length (map domain_task rows) ≡ length rows
length-map [] = refl
length-map (r ∷ rows) = ap suc (length-map rows)

module _ (nx : DiGraph) (rd : Redis) (deliver : Event → Bool) where
  load_rows-count :
      (rows : List TaskRow) (s : State nx rd deliver)
      → (load_rows nx rd deliver rows s).0 ≡ ok (length rows)
  load_rows-count [] s = refl
  load_rows-count (r ∷ rs) s = ap ok (length-map (r ∷ rs))

  -- `load_from_db` collects as many rows as the table has.
  pub loaded-length :
      (db : Database) (table : List TaskRow)
      → length (load_pages db (suc (length table)) 1000 0 table) ≡ length table
  loaded-length db table =
      length-load_pages db (suc (length table)) 1000 0 table (omega arith) (omega arith)
        (omega arith)
      ∙ omega arith

  -- `load_from_db` ends, however many pages it takes and in whatever order the database serves each of
  -- them, and returns the number of rows of the table.
  pub load_from_db-count :
      (db : Database) (s : State nx rd deliver)
      → (load_from_db nx rd deliver db s).0 ≡ ok (length s.table)
  unfolding load_from_db
  load_from_db-count db s = load_rows-count _ s ∙ ap ok (loaded-length db s.table)
