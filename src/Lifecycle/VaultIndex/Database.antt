-- ===== src/Lifecycle/VaultIndex/Database.antt =====
-- artifact_lifecycle/vault_index.py: `connect` and `init_schema`. The file of the database, with its pragmas as
-- settings of the connection; SQLite itself is not in the repository.
use graphify_daemon_portfoli.Prelude.{
  ℕ, ◌≡◌, refl, arith, Bool, true, false, Option, none, some, [], String,
}
use graphify_daemon_portfoli.Lifecycle.Artifacts.{Mode, restrict_to_owner}
use graphify_daemon_portfoli.Lifecycle.VaultIndex.{Table, Connection}

-- The database on disk: the table if it was created, and the modes of the file and of its directory.
pub record Database : Type 0 where
  pub is_posix : Bool
  pub files : Option Table
  pub directory_mode : Mode
  pub mode : Mode

-- What the pragmas set for a connection.
pub record Pragmas : Type 0 where
  pub journal_mode : String
  pub busy_timeout : ℕ
  pub synchronous : String

abbrev min_busy_timeout_ms : ℕ
min_busy_timeout_ms = 5000

-- `connect`
unfoldable pub connect : Database → Pragmas × Database
unfolding restrict_to_owner
connect db = (
  record { journal_mode = "WAL"; busy_timeout = min_busy_timeout_ms; synchronous = "NORMAL" },
  record db {
    directory_mode = restrict_to_owner db.is_posix true db.directory_mode;
    mode = restrict_to_owner db.is_posix false db.mode;
  },
)

-- CREATE TABLE IF NOT EXISTS files
abbrev create_if_absent : Option Table → Table
create_if_absent none = []
create_if_absent (some table) = table

-- `init_schema`
unfoldable pub init_schema : Database → Connection × Database
init_schema db =
    let table = create_if_absent db.files in
    (record { is_open = true; files = table }, record db { files = some table })

-- `connect` and `init_schema`, as the constructor of the daemon calls them
unfoldable pub open_database : Database → Connection × Database
unfolding connect init_schema
open_database db = init_schema (connect db).1

-- Opening a database with a table keeps its rows, and opening it twice is opening it once.
open_database_again :
    (db : Database)
    → ((table : Table) → db.files ≡ some table → (open_database db).0.files ≡ table)
      × (open_database (open_database db).1 ≡ open_database db)
unfolding open_database restrict_to_owner
open_database_again db = (λ table e. rw e refl, ground arith)

-- On POSIX only the owner can read the database or list its directory once it is open.
open_database-private :
    (db : Database)
    → db.is_posix ≡ true
    → ((open_database db).1.directory_mode ≡ some 0o700) × ((open_database db).1.mode ≡ some 0o600)
unfolding open_database restrict_to_owner
open_database-private db h = ground arith
