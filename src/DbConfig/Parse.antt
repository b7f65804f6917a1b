-- ===== src/DbConfig/Parse.antt =====
-- common/dbconnector.cpp: `parseDatabaseConfig`. The library nlohmann::json and the file system are
-- not part of the repository, and are a parameter.
use sonic_swss_common.Prelude.Maybe.{◌>>=◌}
use sonic_swss_common.Prelude.{
  Bool, ◌&&◌, not, List, [], ◌∷◌, Option, none, some, Bytes, codes, insert, nat_eq, bytes_eq,
  if◌then◌else◌,
}
use sonic_swss_common.Decimal.{ℤ}
use sonic_swss_common.DbConfig.{
  RedisInstInfo, SonicDbInfo, Instances, Databases, Separators, int_eq, emplace,
}

-- `none` is an exception.
pub record Files : Type 1 where
  pub Value : Type 0
  -- `access(.., F_OK)`, and `good` of the stream that reads the file
  pub exists : Bytes → Bool
  pub good : Bytes → Bool
  pub parse : Bytes → Option Value
  -- `operator[]`, which makes a null value where the key is missing; `at`; `find`
  pub index : Value → Bytes → Option Value
  pub at : Value → Bytes → Option Value
  pub find : Value → Bytes → Option Value
  -- From `begin` to `end`, with `key()` and without it
  pub members : Value → Option (List (Bytes × Value))
  pub elements : Value → List Value
  -- `empty`: null, and arrays and objects without elements
  pub empty : Value → Bool
  pub string_of : Value → Option Bytes
  pub int_of : Value → Option ℤ

-- The maps that `parseDatabaseConfig` fills.
pub record Entries : Type 0 where
  pub inst_entry : Instances
  pub db_entry : Databases
  pub separator_entry : Separators

abbrev pub no_entries : Entries
no_entries = record { inst_entry = []; db_entry = []; separator_entry = [] }

module _ (f : Files) where
  unfoldable pub socket_of : f.Value → Option Bytes
  socket_of value = elim (f.find value (codes "unix_socket_path")) [
    | none ↦ some []
    | some path ↦ f.string_of path
  ]

  unfoldable pub instance_of : f.Value → Option RedisInstInfo
  unfolding socket_of
  instance_of value = do
    socket ← socket_of value
    hostname ← f.at value (codes "hostname") >>= f.string_of
    port ← f.at value (codes "port") >>= f.int_of
    some (record { unix_socket_path = socket; hostname = hostname; port = port })

  unfoldable pub parse_instances : List (Bytes × f.Value) → Instances → Option Instances
  unfolding instance_of
  parse_instances [] entry = some entry
  parse_instances ((name, value) ∷ rest) entry =
      instance_of value >>= λ info. parse_instances rest (insert name info entry)

  unfoldable pub database_of : f.Value → Option SonicDbInfo
  database_of value = do
    inst ← f.at value (codes "instance") >>= f.string_of
    id ← f.at value (codes "id") >>= f.int_of
    separator ← f.at value (codes "separator") >>= f.string_of
    some (record { inst_name = inst; db_id = id; separator = separator })

  unfoldable pub parse_databases :
      List (Bytes × f.Value) → Databases → Separators → Option (Databases × Separators)
  unfolding database_of emplace
  parse_databases [] dbs seps = some (dbs, seps)
  parse_databases ((name, value) ∷ rest) dbs seps = database_of value >>= λ info.
      parse_databases rest (insert name info dbs) (emplace info.db_id info.separator seps)

  unfoldable pub read_entries : f.Value → Option Entries
  unfolding parse_instances parse_databases
  read_entries j = do
    instances ← f.index j (codes "INSTANCES") >>= f.members
    inst_entry ← parse_instances instances []
    databases ← f.index j (codes "DATABASES") >>= f.members
    both ← parse_databases databases [] []
    some (record { inst_entry = inst_entry; db_entry = both.0; separator_entry = both.1 })

  unfoldable pub parse_database_config : Bytes → Bool → Option Entries
  unfolding read_entries
  parse_database_config file ignore_nonexistent =
      if ignore_nonexistent && not (f.exists file)
      then some no_entries
      else if f.good file
      then f.parse file >>= read_entries
      else none
