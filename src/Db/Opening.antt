-- ===== src/Db/Opening.antt =====
-- DbWriter::start and DbWriter::stop of db.cpp with what SQLite and the file system answer.
use smart_lighting_system.Base.{
  suc, ◌≡◌, refl, ◌∙◌, sym, Bool, true, false, not, ◌&&◌, List, [], ◌∷◌, ◌++◌, Option, none, some,
  append-nil, append_assoc, length, String, if◌then◌else◌,
}
use smart_lighting_system.Db.{DbWriter, new_writer, start, request_stop, finish_stop}
use smart_lighting_system.Db.Statements.{
  Statement, st_region_sync, st_region_zone_power, st_device_upsert, st_lamp_status, st_fault,
  st_command,
}
use smart_lighting_system.Db.Writer.{rounds, rounds_drain}

-- What the calls return: sqlite3_open, sqlite3_exec of a text, sqlite3_prepare_v2 of a statement, and
-- the text of the schema file. `schema` is none if the path is empty.
pub record Answers : Type 0 where
  pub opens : Bool
  pub accepts : String → Bool
  pub compiles : Statement → Bool
  pub schema : Option (Option String)

-- A writer with its database connection and the statements that are not null.
pub record Connection : Type 0 where
  pub db_open : Bool
  pub prepared : List Statement
  pub writer : DbWriter

abbrev pub new_connection : Connection
new_connection = record { db_open = false; prepared = []; writer = new_writer }

-- What a call leaves, and whether an exception left it.
pub data Call : Type 0 where
  returned threw : Connection → Call

abbrev pub pragmas : List String
pragmas =
    "PRAGMA foreign_keys = ON;" ∷ "PRAGMA journal_mode = WAL;" ∷ "PRAGMA synchronous = NORMAL;" ∷ []

-- exec_sql, one text after the other, up to the first that fails.
unfoldable pub exec_all : Answers → List String → Bool
exec_all a [] = true
exec_all a (sql ∷ rest) = a.accepts sql && exec_all a rest

-- apply_schema_from_file, if a path is given.
unfoldable pub apply_schema : Answers → Option (Option String) → Bool
apply_schema a none = true
apply_schema a (some none) = false
apply_schema a (some (some sql)) = a.accepts sql

abbrev pub statements : List Statement
statements =
    st_region_sync ∷ st_region_zone_power ∷ st_device_upsert ∷ st_lamp_status ∷ st_fault
    ∷ st_command ∷ []

-- prepare_statements, and what follows it in `start`.
unfoldable pub prepare_statements : Answers → List Statement → List Statement → Call
unfolding start
prepare_statements a [] prepared =
    returned (record { db_open = true; prepared = prepared; writer = start new_writer })
prepare_statements a (st ∷ rest) prepared =
    let later = prepare_statements a rest (prepared ++ st ∷ []) in
    if a.compiles st
    then later
    else threw (record new_connection { db_open = true; prepared = prepared })

-- `start` of a new writer.
unfoldable pub start_new : Answers → Call
unfolding exec_all apply_schema prepare_statements
start_new a =
    if not a.opens
    then threw new_connection
    else if exec_all a pragmas && apply_schema a a.schema
    then prepare_statements a statements []
    else threw (record new_connection { db_open = true })

-- `stop`, which the destructor calls: the request, the worker's last rounds, which `join` waits for,
-- and what follows them.
unfoldable pub stop : Connection → Connection
unfolding request_stop finish_stop
stop c =
    let w = request_stop c.writer in
    let closed : Connection = record {
      db_open = false;
      prepared = [];
      writer = finish_stop (rounds (suc (length w.q)) w);
    } in
    if c.writer.running then closed else c

-- What `stop` leaves of a running writer.
abbrev pub Stopped : Connection → Connection → Type 0
Stopped c c' =
    (c'.writer.handled ≡ c.writer.handled ++ c.writer.q)
    × (c'.writer.q ≡ [])
    × (c'.writer.running ≡ false)
    × (c'.prepared ≡ [])
    × (c'.db_open ≡ false)

stop_running :
    (b : Bool) (w : DbWriter) (c : Connection)
    → b ≡ true
    → let c1 = record c { writer = record w { running = b } } in Stopped c1 (stop c1)
unfolding stop request_stop finish_stop
stop_running false w c e = cc
stop_running true w c e =
    let all = rounds_drain w.q (record w { running = true; stop_requested = true }) refl refl in
    (all.0, refl, refl, refl, refl)

-- `stop` of a running writer has the worker handle what is queued, in order, and then closes the
-- statements and the database.
pub stop_lem : (c : Connection) → c.writer.running ≡ true → Stopped c (stop c)
stop_lem c e = stop_running c.writer.running c.writer c e

-- What `start` leaves: all that it needs, or an exception.
abbrev pub StartsOrThrows : Answers → Call → Type 0
StartsOrThrows a (returned c) =
    (c.db_open ≡ true) × (c.prepared ≡ statements) × (c.writer ≡ start new_writer)
StartsOrThrows a (threw c) = (c.db_open ≡ a.opens) × (c.writer.running ≡ false) × (stop c ≡ c)

prepare_lem :
    (a : Answers) (rest prepared : List Statement)
    → a.opens ≡ true
    → prepared ++ rest ≡ statements
    → StartsOrThrows a (prepare_statements a rest prepared)
unfolding prepare_statements stop
prepare_lem a [] prepared o e = (refl, sym (append-nil prepared) ∙ e, refl)
prepare_lem a (st ∷ rest) prepared o e =
    compiled (a.compiles st)
      (prepare_lem a rest (prepared ++ st ∷ []) o (append_assoc prepared (st ∷ []) rest ∙ e))
  where
    compiled :
        (b : Bool)
        → StartsOrThrows a (prepare_statements a rest (prepared ++ st ∷ []))
        → StartsOrThrows a (
            if b
            then prepare_statements a rest (prepared ++ st ∷ [])
            else threw (record new_connection { db_open = true; prepared = prepared }))
    compiled true h = h
    compiled false h = (sym o, refl, refl)

-- Whatever SQLite and the file system answer, `start` of a new writer leaves it running with the database
-- open and all six statements prepared, or it throws. Then the writer does not run, and `stop` does
-- nothing: a database that was opened stays open.
pub start_new_lem : (a : Answers) → StartsOrThrows a (start_new a)
unfolding start_new stop
start_new_lem a = opened a.opens (exec_all a pragmas && apply_schema a a.schema) refl
  where
    opened :
        (o set_up : Bool)
        → a.opens ≡ o
        → StartsOrThrows a (
            if not o
            then threw new_connection
            else if set_up
            then prepare_statements a statements []
            else threw (record new_connection { db_open = true }))
    opened false set_up e = (sym e, refl, refl)
    opened true true e = prepare_lem a statements [] e refl
    opened true false e = (sym e, refl, refl)
