-- ===== src/Jobs.antt =====
-- src/dispatcher/job_types.py: the job types, their values and their queues; and the JSON body of
-- a message as the code writes and reads it.
pub mod Routing
pub mod Reading
use migration_orchestrator_k.Prelude.{
  ℕ, String, Option, none, some, Bool, List, [], ◌∷◌, ◌==◌, if◌then◌else◌,
}
use migration_orchestrator_k.Exec.{Result, ok, err, key_error, type_error, value_error}

pub data JobType : Type 0 where
  add_server configure_replication_settings start_replication : JobType
  configure_test_launch_template launch_test_instance finalize_test : JobType
  configure_cutover_launch_template start_cutover launch_cutover_instance finalize_cutover : JobType
  disconnect_source_server archive_source_server delete_replication_components : JobType
  poll_replication_status poll_test_instance_status poll_cutover_sync_status : JobType
  poll_cutover_instance_status poll_disconnect_status : JobType
  rollback_replication_settings rollback_test_launch_template rollback_test_instance : JobType
  rollback_cutover_launch_template rollback_cutover_instance : JobType
  rollback_replication_components : JobType

-- `job_type.value`
unfoldable pub job_value : JobType → String
job_value add_server = "add_server"
job_value configure_replication_settings = "configure_replication_settings"
job_value start_replication = "start_replication"
job_value configure_test_launch_template = "configure_test_launch_template"
job_value launch_test_instance = "launch_test_instance"
job_value finalize_test = "finalize_test"
job_value configure_cutover_launch_template = "configure_cutover_launch_template"
job_value start_cutover = "start_cutover"
job_value launch_cutover_instance = "launch_cutover_instance"
job_value finalize_cutover = "finalize_cutover"
job_value disconnect_source_server = "disconnect_source_server"
job_value archive_source_server = "archive_source_server"
job_value delete_replication_components = "delete_replication_components"
job_value poll_replication_status = "poll_replication_status"
job_value poll_test_instance_status = "poll_test_instance_status"
job_value poll_cutover_sync_status = "poll_cutover_sync_status"
job_value poll_cutover_instance_status = "poll_cutover_instance_status"
job_value poll_disconnect_status = "poll_disconnect_status"
job_value rollback_replication_settings = "rollback_replication_settings"
job_value rollback_test_launch_template = "rollback_test_launch_template"
job_value rollback_test_instance = "rollback_test_instance"
job_value rollback_cutover_launch_template = "rollback_cutover_launch_template"
job_value rollback_cutover_instance = "rollback_cutover_instance"
job_value rollback_replication_components = "rollback_replication_components"

abbrev pub job_types : List JobType
job_types =
    add_server ∷ configure_replication_settings ∷ start_replication ∷ configure_test_launch_template
    ∷ launch_test_instance ∷ finalize_test ∷ configure_cutover_launch_template ∷ start_cutover
    ∷ launch_cutover_instance ∷ finalize_cutover ∷ disconnect_source_server ∷ archive_source_server
    ∷ delete_replication_components ∷ poll_replication_status ∷ poll_test_instance_status
    ∷ poll_cutover_sync_status ∷ poll_cutover_instance_status ∷ poll_disconnect_status
    ∷ rollback_replication_settings ∷ rollback_test_launch_template ∷ rollback_test_instance
    ∷ rollback_cutover_launch_template ∷ rollback_cutover_instance ∷ rollback_replication_components
    ∷ []

find_job : List JobType → String → Option JobType
find_job [] text = none
find_job (j ∷ rest) text = if job_value j == text then some j else find_job rest text

-- `JobType(text)`; `none` is a ValueError.
unfoldable pub parse_job_type : String → Option JobType
unfolding find_job job_value
parse_job_type text = find_job job_types text

-- QUEUE_ROUTING; every job type is a key.
unfoldable pub queue_routing : JobType → String
queue_routing poll_replication_status = "poll_jobs"
queue_routing poll_test_instance_status = "poll_jobs"
queue_routing poll_cutover_sync_status = "poll_jobs"
queue_routing poll_cutover_instance_status = "poll_jobs"
queue_routing poll_disconnect_status = "poll_jobs"
queue_routing rollback_replication_settings = "rollback_jobs"
queue_routing rollback_test_launch_template = "rollback_jobs"
queue_routing rollback_test_instance = "rollback_jobs"
queue_routing rollback_cutover_launch_template = "rollback_jobs"
queue_routing rollback_cutover_instance = "rollback_jobs"
queue_routing rollback_replication_components = "rollback_jobs"
queue_routing _ = "mgn_jobs"

-- What a JSON object of this program holds under a key.
pub data Value : Type 0 where
  null : Value
  str : String → Value
  flag : Bool → Value
  strs : List String → Value

abbrev pub JsonObject : Type 0
JsonObject = List (String × Value)

abbrev pub of_option : Option String → Value
of_option none = null
of_option (some s) = str s

-- `d.get(key, default)`
unfoldable pub get_default : JsonObject → String → Value → Value
get_default [] key default = default
get_default ((k, v) ∷ rest) key default = if k == key then v else get_default rest key default

-- `d[key]`
unfoldable pub get_item : JsonObject → String → Result Value
get_item [] key = err (key_error key)
get_item ((k, v) ∷ rest) key = if k == key then ok v else get_item rest key

-- Python's truth value of a JSON value.
abbrev pub truthy : Value → Bool
truthy null = Bool.false
truthy (str s) = if s == "" then Bool.false else Bool.true
truthy (flag b) = b
truthy (strs []) = Bool.false
truthy (strs (x ∷ xs)) = Bool.true

-- A value where the database driver takes only a text.
unfoldable pub as_text : Value → Result String
as_text (str s) = ok s
as_text _ = err type_error

-- The JSON object in a message's body: its keys that hold a text, an object and a number. Every
-- writer and every reader names its keys.
pub record Body : Type 0 where
  pub texts : List (String × String)
  pub objects : List (String × JsonObject)
  pub numbers : List (String × ℕ)

-- `body.get(key)`
abbrev pub entry {ℓ} : {A : Type ℓ} → List (String × A) → String → Option A
entry [] key = none
entry ((k, a) ∷ rest) key = if k == key then some a else entry rest key

-- `body[key] = a`
abbrev pub assign {ℓ} : {A : Type ℓ} → List (String × A) → String → A → List (String × A)
assign [] key a = (key, a) ∷ []
assign ((k, b) ∷ rest) key a = if k == key then (k, a) ∷ rest else (k, b) ∷ assign rest key a

-- A message with its AMQP property; a body that is no JSON object is `none`.
pub record Message : Type 0 where
  pub message_id : Option String
  pub body : Option Body

-- `json.loads(message.body)`; and `body[key]`, which raises on a missing key.
unfoldable pub load : Message → Result Body
load m = elim m.body [ none ↦ err (value_error "JSON") | some b ↦ ok b ]

unfoldable pub required {ℓ} : {A : Type ℓ} → String → Option A → Result A
required key none = err (key_error key)
required key (some a) = ok a

-- `body.get("job_id") or message.message_id or "unknown"`
abbrev pub or_else : Option String → String → String
or_else none other = other
or_else (some s) other = if s == "" then other else s

abbrev pub job_id_of : Message → Body → String
job_id_of m b = or_else (entry b.texts "job_id") (or_else m.message_id "unknown")

-- `JobType(text)`, which raises on an unknown text.
unfoldable pub job_type_of : String → Result JobType
unfolding parse_job_type
job_type_of text = elim (parse_job_type text) [
  | none ↦ err (value_error "not a valid JobType")
  | some j ↦ ok j
]
