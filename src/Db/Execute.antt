-- ===== src/Db/Execute.antt =====
-- The handlers of db.cpp with the steps of SQLite, which is a parameter: what a statement does to the
-- database, and the code that sqlite3_step returns.
use smart_lighting_system.Base.{
  ℕ, ◌≡◌, refl, inl, inr, Bool, true, false, ◌||◌, Bool-cases, List, [], ◌∷◌, ◌++◌, eqb, arith,
  eqb_iff, map, if◌then◌else◌,
}
use smart_lighting_system.Db.{Event, RegionSyncEvent, region_sync}
use smart_lighting_system.Db.Statements.{Execution, executions, region_sync_row, zone_power_row}

-- check_sqlite: SQLITE_OK, SQLITE_ROW and SQLITE_DONE pass, any other code throws.
unfoldable pub check_sqlite : ℕ → Bool
check_sqlite rc = eqb rc 0 || eqb rc 101 || eqb rc 100

-- The documented codes of success: SQLITE_OK, SQLITE_ROW and SQLITE_DONE.
pub data IsSuccess : ℕ → Type 0 where
  ok : IsSuccess 0
  row : IsSuccess 100
  done : IsSuccess 101

check_sqlite-passes : (rc : ℕ) → check_sqlite rc ≡ true → IsSuccess rc
unfolding check_sqlite
check_sqlite-passes rc h = elim (Bool-cases (eqb rc 0)) [
  | inl e ↦ let q : rc ≡ 0 = (eqb_iff rc 0).0 e in rw q ok
  | inr e ↦ elim (Bool-cases (eqb rc 100)) [
    | inl e' ↦ let q : rc ≡ 100 = (eqb_iff rc 100).0 e' in rw q row
    | inr e' ↦ let q : rc ≡ 101 = ground arith in rw q done
  ]
]

success_passes : (rc : ℕ) → IsSuccess rc → check_sqlite rc ≡ true
unfolding check_sqlite
success_passes _ ok = refl
success_passes _ row = refl
success_passes _ done = refl

check_sqlite-fails : (rc : ℕ) → check_sqlite rc ≡ false → ¬ IsSuccess rc
check_sqlite-fails rc h s = let k = success_passes rc s in cc

module _ {Database : Type 0} (step : Execution → Database → Database × ℕ) where
  -- The statements in order, up to the first that throws: the database, and whether one threw.
  unfoldable pub run_steps : List Execution → Database → Database × Bool
  run_steps [] db = (db, false)
  run_steps (x ∷ xs) db =
      let (db', rc) = step x db in
      let rest = run_steps xs db' in if check_sqlite rc then rest else (db', true)

  -- `handle` of an event in `worker_main`, which swallows the exception.
  unfoldable pub handle : Event → Database → Database
  unfolding run_steps executions
  handle ev db = (run_steps (executions ev) db).0

  -- What the worker has made of the database.
  unfoldable pub handle_all : List Event → Database → Database
  unfolding handle
  handle_all [] db = db
  handle_all (ev ∷ rest) db = handle_all rest (handle ev db)

  -- What the statements do if none fails.
  abbrev pub apply_all : List Execution → Database → Database
  apply_all [] db = db
  apply_all (x ∷ xs) db = apply_all xs (step x db).0

  abbrev pub Succeeds : Execution → Database → Type 0
  Succeeds x db = IsSuccess (step x db).1

  abbrev pub Passes : List Execution → Database → Type 0
  Passes [] db = Unit
  Passes (x ∷ xs) db = Succeeds x db × Passes xs (step x db).0

  module _ (e : RegionSyncEvent) where
    -- The row of the region, and those of some of the zones.
    abbrev pub zone_rows : List (ℕ × ℕ) → List Execution
    zone_rows zs = map (zone_power_row e) zs

    -- What the rows of the zones leave: all are there, or those before the first that fails.
    pub data ZonesStored : List (ℕ × ℕ) → Database → Database → Type 0 where
      all_zones :
          {zs : List (ℕ × ℕ)} {db : Database}
          → Passes (zone_rows zs) db
          → ZonesStored zs db (apply_all (zone_rows zs) db)
      cut :
          {db : Database} (before : List (ℕ × ℕ)) (z : ℕ × ℕ) (after : List (ℕ × ℕ))
          → Passes (zone_rows before) db
          → ¬ Succeeds (zone_power_row e z) (apply_all (zone_rows before) db)
          → ZonesStored
              (before ++ z ∷ after)
              db
              (step (zone_power_row e z) (apply_all (zone_rows before) db)).0

    -- What a sync leaves: nothing of it but what the failing row did, or the row of the region and
    -- rows of zones.
    pub data SyncStored (db : Database) : Database → Type 0 where
      refused : ¬ Succeeds (region_sync_row e) db → SyncStored db (step (region_sync_row e) db).0
      stored :
          {db' : Database}
          → Succeeds (region_sync_row e) db
          → ZonesStored e.zone_power_sum (step (region_sync_row e) db).0 db'
          → SyncStored db db'

    one_more :
        (z : ℕ × ℕ) {zs : List (ℕ × ℕ)} {db db' : Database}
        → Succeeds (zone_power_row e z) db
        → ZonesStored zs (step (zone_power_row e z) db).0 db'
        → ZonesStored (z ∷ zs) db db'
    one_more z s (all_zones h) = all_zones (s, h)
    one_more z s (cut before z' after h f) = cut (z ∷ before) z' after (s, h) f

    run_steps-ZonesStored :
        (zs : List (ℕ × ℕ)) (db : Database) → ZonesStored zs db (run_steps (zone_rows zs) db).0
    unfolding run_steps
    run_steps-ZonesStored [] db = all_zones tt
    run_steps-ZonesStored (z ∷ zs) db =
        let rest = run_steps-ZonesStored zs (step (zone_power_row e z) db).0 in
        elim (Bool-cases (check_sqlite (step (zone_power_row e z) db).1)) [
          | inl p ↦ rw p (one_more z (check_sqlite-passes _ p) rest)
          | inr p ↦ rw p (cut {db = db} [] z zs tt (check_sqlite-fails _ p))
        ]

    -- The statements of a sync run up to the first that SQLite does not answer with OK, ROW or DONE,
    -- whatever they do to the database: without the row of the region, no zone is written; otherwise
    -- the zones are written in their order, and the ones before the first that fails stay, with no
    -- rollback, while those behind it are never written.
    pub handle-SyncStored : (db : Database) → SyncStored db (handle (region_sync e) db)
    unfolding handle executions run_steps
    handle-SyncStored db =
        let zones = run_steps-ZonesStored e.zone_power_sum (step (region_sync_row e) db).0 in
        elim (Bool-cases (check_sqlite (step (region_sync_row e) db).1)) [
          | inl p ↦ rw (p, handle, executions, run_steps) (stored (check_sqlite-passes _ p) zones)
          | inr p ↦ rw (p, handle, executions, run_steps) (refused (check_sqlite-fails _ p))
        ]

  -- The database after the events of two stretches of time.
  pub handle_all-append :
      (xs ys : List Event) (db : Database)
      → handle_all (xs ++ ys) db ≡ handle_all ys (handle_all xs db)
  unfolding handle_all
  handle_all-append [] ys db = refl
  handle_all-append (x ∷ xs) ys db = handle_all-append xs ys (handle x db)
