-- ===== src/DbConfig/Find.antt =====
-- common/dbconnector.cpp: the operations that look up what is loaded.
use sonic_swss_common.Prelude.{
  Bool, true, false, ◌&&◌, not, List, [], ◌∷◌, Option, none, some, Bytes, map, lookup, ◌==◌, nat_eq,
  bytes_eq, ltb, if◌then◌else◌, ◌≡◌, refl,
}
use sonic_swss_common.Decimal.{ℤ}
use sonic_swss_common.DbConfig.{
  Config, SonicDbKey, SonicDbInfo, RedisInstInfo, Instances, key_eq, int_eq, is_empty,
}
use sonic_swss_common.DbConfig.Parse.{Files}
use sonic_swss_common.DbConfig.Load.{initialize, default_sonic_db_config_file}

-- The exceptions, without their messages.
pub data Exception : Type 0 where
  runtime_error out_of_range invalid_argument : Exception

pub data Outcome {ℓ} (A : Type ℓ) : Type ℓ where
  returned : A → Outcome A
  thrown : Exception → Outcome A

infixl 5 ◌>>=◌
abbrev pub ◌>>=◌ {ℓ κ} : {A : Type ℓ} {B : Type κ} → Outcome A → (A → Outcome B) → Outcome B
returned a >>= next = next a
thrown e >>= next = thrown e

pub bind-eq-returned {ℓ κ} :
    {A : Type ℓ} {B : Type κ} (o : Outcome A) (next : A → Outcome B) {b : B}
    → (o >>= next) ≡ returned b
    → (a : A) × (o ≡ returned a) × (next a ≡ returned b)
bind-eq-returned (returned a) next h = (a, refl, h)
bind-eq-returned (thrown e) next h = cc

-- `find`, with `out_of_range` where nothing is found.
unfoldable pub found {ℓ} : {A : Type ℓ} → Option A → Outcome A
found none = thrown out_of_range
found (some a) = returned a

unfoldable pub field {ℓ κ} :
    {A : Type ℓ} {B : Type κ} → (A → B) → Outcome A × Config → Outcome B × Config
field of (outcome, st) = (outcome >>= λ a. returned (of a), st)

-- A key that is not empty needs the global configuration.
unfoldable pub check_key : SonicDbKey → Config → Outcome Bool
check_key key st =
    if not (is_empty key) && not st.global_init then thrown runtime_error else returned true

-- Whether a namespace is that of an entry
unfoldable pub has_namespace : Bytes → List (SonicDbKey × Instances) → Bool
has_namespace netns [] = false
has_namespace netns ((key, entry) ∷ rest) =
    let more = has_namespace netns rest in if key.netns == netns then true else more

unfoldable pub validate_namespace : Bytes → Config → Outcome Bool
unfolding has_namespace
validate_namespace [] st = returned true
validate_namespace (c ∷ netns) st =
    if not st.global_init
    then thrown runtime_error
    else if has_namespace (c ∷ netns) st.inst_info
    then returned true
    else thrown runtime_error

-- The lookups behind the two checks of each operation
unfoldable pub find_db_info : Bytes → SonicDbKey → Config → Outcome SonicDbInfo
unfolding check_key found
find_db_info name key st = do
  _ ← check_key key st
  infos ← found (lookup key st.db_info)
  found (lookup name infos)

unfoldable pub find_redis_info : Bytes → SonicDbKey → Config → Outcome RedisInstInfo
unfolding find_db_info
find_redis_info name key st = do
  _ ← check_key key st
  infos ← found (lookup key st.inst_info)
  db ← find_db_info name key st
  found (lookup db.inst_name infos)

unfoldable pub find_separator : ℤ → SonicDbKey → Config → Outcome Bytes
unfolding check_key found
find_separator id key st = do
  _ ← check_key key st
  seps ← found (lookup key st.db_separator)
  found (lookup id seps)

-- `operator<` of strings
unfoldable pub bytes_less : Bytes → Bytes → Bool
bytes_less _ [] = false
bytes_less [] (d ∷ t) = true
bytes_less (c ∷ s) (d ∷ t) = let rest = bytes_less s t in if c == d then rest else ltb c d

-- `insert` of a `std::set`
unfoldable pub set_insert : Bytes → List Bytes → List Bytes
unfolding bytes_less
set_insert name [] = name ∷ []
set_insert name (other ∷ names) =
    let rest = set_insert name names in
    if bytes_less name other
    then name ∷ other ∷ names
    else if name == other
    then other ∷ names
    else other ∷ rest

unfoldable pub namespaces : List (SonicDbKey × Instances) → List Bytes
unfolding set_insert
namespaces [] = []
namespaces ((key, entry) ∷ rest) = set_insert key.netns (namespaces rest)

unfoldable pub list_databases : SonicDbKey → Config → Outcome (List Bytes)
unfolding validate_namespace found
list_databases key st = do
  _ ← validate_namespace key.netns st
  infos ← found (lookup key st.db_info)
  returned (map (λ e. e.0) infos)

unfoldable pub list_instances : SonicDbKey → Config → Outcome Instances
unfolding validate_namespace
list_instances key st = do
  _ ← validate_namespace key.netns st
  returned (elim (lookup key st.inst_info) [ none ↦ [] | some infos ↦ infos ])

-- `DBConnector`, as far as it is asked here.
pub record DbConnector : Type 0 where
  pub db_id : ℤ
  pub db_name : Bytes
  pub db_key : SonicDbKey

unfoldable pub answer {ℓ} :
    {A : Type ℓ} → (Config → Outcome A) → Config → Option Config → Outcome A × Config
answer ask st none = (thrown runtime_error, st)
answer ask st (some st1) = (ask st1, st1)

module _ (f : Files) where
  -- Every lookup loads the default file where nothing is loaded yet.
  unfoldable pub started : Config → Option Config
  unfolding initialize
  started st = if st.init then some st else initialize f default_sonic_db_config_file st

  unfoldable pub with_init {ℓ} : {A : Type ℓ} → (Config → Outcome A) → Config → Outcome A × Config
  unfolding started answer
  with_init ask st = answer ask st (started st)

  unfoldable pub get_db_info : Bytes → SonicDbKey → Config → Outcome SonicDbInfo × Config
  unfolding with_init find_db_info
  get_db_info name key st = with_init (find_db_info name key) st

  unfoldable pub get_redis_info : Bytes → SonicDbKey → Config → Outcome RedisInstInfo × Config
  unfolding with_init find_redis_info
  get_redis_info name key st = with_init (find_redis_info name key) st

  unfoldable pub get_db_inst : Bytes → SonicDbKey → Config → Outcome Bytes × Config
  unfolding field get_db_info
  get_db_inst name key st = field (λ (info : SonicDbInfo). info.inst_name) (get_db_info name key st)

  unfoldable pub get_db_id : Bytes → SonicDbKey → Config → Outcome ℤ × Config
  unfolding field get_db_info
  get_db_id name key st = field (λ (info : SonicDbInfo). info.db_id) (get_db_info name key st)

  unfoldable pub get_separator : Bytes → SonicDbKey → Config → Outcome Bytes × Config
  unfolding field get_db_info
  get_separator name key st =
      field (λ (info : SonicDbInfo). info.separator) (get_db_info name key st)

  -- `getSeparator` of a number
  unfoldable pub get_id_separator : ℤ → SonicDbKey → Config → Outcome Bytes × Config
  unfolding with_init find_separator
  get_id_separator id key st = with_init (find_separator id key) st

  -- `getSeparator` of a connection, `none` being a null pointer
  unfoldable pub get_connector_separator : Option DbConnector → Config → Outcome Bytes × Config
  unfolding get_separator get_id_separator
  get_connector_separator none st = (thrown invalid_argument, st)
  get_connector_separator (some db) st =
      if db.db_name == []
      then get_id_separator db.db_id db.db_key st
      else get_separator db.db_name db.db_key st

  unfoldable pub get_db_sock : Bytes → SonicDbKey → Config → Outcome Bytes × Config
  unfolding field get_redis_info
  get_db_sock name key st =
      field (λ (info : RedisInstInfo). info.unix_socket_path) (get_redis_info name key st)

  unfoldable pub get_db_hostname : Bytes → SonicDbKey → Config → Outcome Bytes × Config
  unfolding field get_redis_info
  get_db_hostname name key st =
      field (λ (info : RedisInstInfo). info.hostname) (get_redis_info name key st)

  unfoldable pub get_db_port : Bytes → SonicDbKey → Config → Outcome ℤ × Config
  unfolding field get_redis_info
  get_db_port name key st = field (λ (info : RedisInstInfo). info.port) (get_redis_info name key st)

  unfoldable pub get_namespaces : Config → Outcome (List Bytes) × Config
  unfolding with_init namespaces
  get_namespaces st = with_init (λ loaded. returned (namespaces loaded.inst_info)) st

  unfoldable pub get_db_keys : Config → Outcome (List SonicDbKey) × Config
  unfolding with_init
  get_db_keys st = with_init (λ loaded. returned (map (λ e. e.0) loaded.inst_info)) st

  unfoldable pub get_db_list : SonicDbKey → Config → Outcome (List Bytes) × Config
  unfolding with_init list_databases
  get_db_list key st = with_init (list_databases key) st

  unfoldable pub get_instance_list : SonicDbKey → Config → Outcome Instances × Config
  unfolding with_init list_instances
  get_instance_list key st = with_init (list_instances key) st
