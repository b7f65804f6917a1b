-- ===== src/DbConfig/Load.antt =====
-- common/dbconnector.cpp: the operations that load a configuration.
use sonic_swss_common.Prelude.Maybe.{◌>>=◌}
use sonic_swss_common.Prelude.{
  Bool, true, false, ◌&&◌, ◌||◌, not, List, [], ◌∷◌, ◌++◌, Option, none, some, Bytes, codes, insert,
  ◌==◌, nat_eq, bytes_eq, if◌then◌else◌,
}
use sonic_swss_common.DbConfig.{Config, SonicDbKey, empty_key, key_eq, is_empty, emplace}
use sonic_swss_common.DbConfig.Parse.{Files, Entries, parse_database_config}

abbrev pub default_sonic_db_config_file : Bytes
default_sonic_db_config_file = codes "/var/run/redis/sonic-db/database_config.json"

-- Before anything is loaded
abbrev pub no_config : Config
no_config = record {
  inst_info = [];
  db_info = [];
  db_separator = [];
  init = false;
  global_init = false;
}

unfoldable pub reset : Config → Config
reset st = record st {
  init = false;
  global_init = false;
  inst_info = [];
  db_info = [];
  db_separator = [];
}

-- `file.substr(0, file.rfind("/") + 1)`, which is empty without a `/`.
unfoldable pub directory_of : Bytes → Bytes
directory_of [] = []
directory_of (c ∷ s) =
    let rest = directory_of s in
    if not (rest == []) then c ∷ rest else if c == b'/' then c ∷ [] else []

-- The assignments of `m_inst_info[key]`, `m_db_info[key]` and `m_db_separator[key]`
unfoldable pub assign : SonicDbKey → Entries → Config → Config
assign key c st = record st {
  inst_info = insert key c.inst_entry st.inst_info;
  db_info = insert key c.db_entry st.db_info;
  db_separator = insert key c.separator_entry st.db_separator;
}

unfoldable pub mark_init : SonicDbKey → Config → Config
mark_init key st = if is_empty key then record st { init = true } else st

unfoldable pub is_nil {ℓ} : {A : Type ℓ} → List A → Bool
is_nil [] = true
is_nil (x ∷ xs) = false

-- Entries that are all empty are not kept.
unfoldable pub keep : SonicDbKey → Entries → Config → Config
unfolding assign is_nil
keep key c st =
    if not (is_nil c.inst_entry) || not (is_nil c.db_entry) || not (is_nil c.separator_entry)
    then assign key c st
    else st

unfoldable pub first_load : Entries → Config → Config
unfolding emplace
first_load c st = record st {
  inst_info = emplace empty_key c.inst_entry st.inst_info;
  db_info = emplace empty_key c.db_entry st.db_info;
  db_separator = emplace empty_key c.separator_entry st.db_separator;
  init = true;
}

-- `m_global_init` is set unless an exception left the function.
unfoldable pub finish_global : Bool × Config → Bool × Config
finish_global (true, st) = (true, record st { global_init = true })
finish_global (false, st) = (false, st)

-- What follows a round that may throw.
unfoldable pub go_on : Option Config → Config → (Config → Bool × Config) → Bool × Config
go_on none st next = (false, st)
go_on (some st1) st next = next st1

module _ (f : Files) where
  -- `none` is `std::runtime_error`, and changes nothing.
  unfoldable pub initialize : Bytes → Config → Option Config
  unfolding parse_database_config first_load
  initialize file st =
      if st.init then none else parse_database_config f file false >>= λ c. some (first_load c st)

  -- A member of an element of `INCLUDES` that may be null.
  unfoldable pub optional : f.Value → Bytes → Option Bytes
  optional element name =
      f.index element name >>= λ value. if f.empty value then some [] else f.string_of value

  unfoldable pub include_key : f.Value → Option SonicDbKey
  unfolding optional
  include_key element = do
    netns ← optional element (codes "namespace")
    container_name ← optional element (codes "container_name")
    some (record { container_name = container_name; netns = netns })

  -- One round of the loop over `INCLUDES`; `none` is an exception.
  unfoldable pub include : Bytes → Bool → f.Value → Config → Option Config
  unfolding include_key parse_database_config mark_init keep
  include dir ignore_nonexistent element st = do
    name ← f.index element (codes "include") >>= f.string_of
    key ← include_key element
    if is_empty key && st.init
        then some st
        else parse_database_config f (dir ++ name) ignore_nonexistent >>= λ c.
            some (mark_init key (keep key c st))

  -- An exception leaves what the rounds before it have stored.
  unfoldable pub include_each : Bytes → Bool → List f.Value → Config → Bool × Config
  unfolding include go_on
  include_each dir ignore_nonexistent [] st = (true, st)
  include_each dir ignore_nonexistent (element ∷ rest) st =
      go_on (include dir ignore_nonexistent element st) st
        (λ st1. include_each dir ignore_nonexistent rest st1)

  unfoldable pub read_includes : Bytes → Bool → Config → Option f.Value → Bool × Config
  unfolding include_each directory_of
  read_includes file ignore_nonexistent st none = (false, st)
  read_includes file ignore_nonexistent st (some includes) =
      include_each (directory_of file) ignore_nonexistent (f.elements includes) st

  -- `true` where the file could be read; `false` is `std::runtime_error`.
  unfoldable pub load_includes : Bytes → Bool → Config → Bool × Config
  unfolding read_includes
  load_includes file ignore_nonexistent st =
      read_includes file ignore_nonexistent st (f.parse file >>= λ j. f.index j (codes "INCLUDES"))

  unfoldable pub initialize_global_config : Bytes → Bool → Config → Bool × Config
  unfolding load_includes finish_global
  initialize_global_config file ignore_nonexistent st =
      if st.global_init
      then (true, st)
      else finish_global
          (if f.good file then load_includes file ignore_nonexistent st else (true, st))
