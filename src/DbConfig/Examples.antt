-- ===== src/DbConfig/Examples.antt =====
-- Tests of the configuration of databases, and its theorems at concrete inputs.
use sonic_swss_common.Prelude.{
  true, false, List, [], ◌∷◌, Option, none, some, Bytes, codes, lookup, insert, ◌==◌, nat_eq,
  bytes_eq, bytes_beq, if◌then◌else◌, ◌≡◌, refl,
}
use sonic_swss_common.Decimal.{ℤ, pos}
use sonic_swss_common.DbConfig.{Config, SonicDbInfo, empty_key, int_test, same_key, is_empty}
use sonic_swss_common.DbConfig.Parse.{Files, Entries, parse_database_config}
use sonic_swss_common.DbConfig.Load.{no_config, initialize, directory_of}
use sonic_swss_common.DbConfig.Find.{
  returned, thrown, out_of_range, found, get_db_info, get_id_separator, set_insert,
}
use sonic_swss_common.DbConfig.Valid.{IsValid, no_config-IsValid}
use sonic_swss_common.DbConfig.Asked.{
  Call, call_initialize, call_reset, call_get_db_info, run_calls, run_calls-IsValid,
  get_db_info-get_id_separator, get_db_info-initialize,
}

-- The values of a file with one instance and two databases
data JsonNode : Type 0 where
  root instances databases redis appl state : JsonNode
  text : Bytes → JsonNode
  number : ℤ → JsonNode

database_at : Bytes → ℤ → Bytes → Option JsonNode
database_at separator id name =
    if name == codes "instance"
    then some (text (codes "redis"))
    else if name == codes "id"
    then some (number id)
    else if name == codes "separator"
    then some (text separator)
    else none

node_at : JsonNode → Bytes → Option JsonNode
unfolding database_at
node_at root name = if name == codes "INSTANCES" then some instances else some databases
node_at redis name =
    if name == codes "hostname"
    then some (text (codes "127.0.0.1"))
    else if name == codes "port"
    then some (number (pos 6379))
    else none
node_at appl name = database_at (codes ":") (pos 0) name
node_at state name = database_at (codes "|") (pos 6) name
node_at _ name = none

node_members : JsonNode → Option (List (Bytes × JsonNode))
node_members instances = some ((codes "redis", redis) ∷ [])
node_members databases = some ((codes "APPL_DB", appl) ∷ (codes "STATE_DB", state) ∷ [])
node_members _ = none

node_text : JsonNode → Option Bytes
node_text (text s) = some s
node_text _ = none

node_number : JsonNode → Option ℤ
node_number (number n) = some n
node_number _ = none

files : Files
unfolding node_at node_members node_text node_number
files = record {
  Value = JsonNode;
  exists = λ file. true;
  good = λ file. true;
  parse = λ file. some root;
  index = node_at;
  at = node_at;
  find = node_at;
  members = node_members;
  elements = λ value. [];
  empty = λ value. false;
  string_of = node_text;
  int_of = node_number;
}

abbrev state_db : SonicDbInfo
state_db = record { inst_name = codes "redis"; db_id = pos 6; separator = codes "|" }

abbrev loaded : Config
loaded = record {
  inst_info =
      (
        empty_key,
        (
          codes "redis",
          record { unix_socket_path = []; hostname = codes "127.0.0.1"; port = pos 6379 },
        )
            ∷ [],
      )
      ∷ [];
  db_info =
      (
        empty_key,
        (
          codes "APPL_DB",
          record { inst_name = codes "redis"; db_id = pos 0; separator = codes ":" },
        )
            ∷ (codes "STATE_DB", state_db)
            ∷ [],
      )
      ∷ [];
  db_separator = (empty_key, (pos 0, codes ":") ∷ (pos 6, codes "|") ∷ []) ∷ [];
  init = true;
  global_init = false;
}

load_test : initialize files (codes "config.json") no_config ≡ some loaded
unfolding initialize files insert lookup bytes_beq int_test
load_test = refl

find_test : get_db_info files (codes "STATE_DB") empty_key no_config ≡ (returned state_db, loaded)
unfolding get_db_info files insert lookup bytes_beq int_test same_key is_empty
find_test = refl

missing_test : get_db_info files (codes "ASIC_DB") empty_key loaded ≡ (thrown out_of_range, loaded)
unfolding get_db_info lookup bytes_beq same_key is_empty
missing_test = refl

directory_test : directory_of (codes "/var/run/global.json") ≡ codes "/var/run/"
unfolding directory_of bytes_beq
directory_test = refl

namespaces_test :
    set_insert (codes "asic1") (set_insert [] (set_insert (codes "asic1") []))
    ≡ [] ∷ codes "asic1" ∷ []
unfolding set_insert bytes_beq
namespaces_test = refl

abbrev calls : List Call
calls =
    call_get_db_info (codes "STATE_DB") empty_key ∷ call_reset ∷ call_initialize (codes "f") ∷ []

run_calls-IsValid_example : IsValid (run_calls files calls no_config)
run_calls-IsValid_example = run_calls-IsValid files calls no_config no_config-IsValid

get_db_info-get_id_separator_example :
    (sep : Bytes) × (get_id_separator files (pos 6) empty_key loaded ≡ (returned sep, loaded))
get_db_info-get_id_separator_example =
    get_db_info-get_id_separator files (codes "STATE_DB") empty_key state_db no_config loaded
      no_config-IsValid find_test

get_db_info-initialize_example :
    (c : Entries) × (parse_database_config files (codes "config.json") false ≡ some c)
    × (get_db_info files (codes "APPL_DB") empty_key loaded
        ≡ (found (lookup (codes "APPL_DB") c.db_entry), loaded))
get_db_info-initialize_example =
    get_db_info-initialize files (codes "config.json") (codes "APPL_DB") no_config loaded
      no_config-IsValid load_test
