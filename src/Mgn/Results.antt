-- ===== src/Mgn/Results.antt =====
-- MgnResult, the verdict on a message, and what the handlers share. The texts of errors only reach
-- the log, and are left out.
use migration_orchestrator_k.Prelude.{
  String, Option, none, some, Bool, true, false, List, [], ◌∷◌, ◌&&◌, get_or, ◌==◌,
}
use migration_orchestrator_k.Exec.{Exec, pure, raise, lift, try_except, value_error, ◌>>=◌}
use migration_orchestrator_k.Jobs.{JsonObject, Value, null, str, flag, strs, as_text}
use migration_orchestrator_k.Services.{Services, SourceServer}
use migration_orchestrator_k.World.{World, read}
use migration_orchestrator_k.Client

pub data MgnResult : Type 0 where
  success : Option String → Option JsonObject → MgnResult
  failure : MgnResult

-- What a worker tells the broker: `message.ack()` or `message.nack(requeue=False)`.
pub data Verdict : Type 0 where
  ack nack : Verdict

-- {"aws_source_server_id": aws_id}
abbrev pub aws_metadata : Value → JsonObject
aws_metadata aws_id = ("aws_source_server_id", aws_id) ∷ []

-- {"server_id": server_id, "aws_source_server_id": aws_id}
abbrev pub server_payload : Value → Value → JsonObject
server_payload server_id aws_id = ("server_id", server_id) ∷ ("aws_source_server_id", aws_id) ∷ []

same_texts : List String → List String → Bool
same_texts [] [] = true
same_texts (s ∷ ss) (t ∷ ts) = s == t && same_texts ss ts
same_texts _ _ = false

-- Python's `==` on JSON values.
unfoldable pub value_eq : Value → Value → Bool
unfolding same_texts
value_eq null null = true
value_eq (str s) (str t) = s == t
value_eq (flag true) (flag b) = b
value_eq (flag false) (flag true) = false
value_eq (flag false) (flag false) = true
value_eq (strs ss) (strs ts) = same_texts ss ts
value_eq _ _ = false

module _ {S : Type 0} where
  -- The `try … except Exception` around the body of every handler.
  abbrev pub guarded : Exec (World S) MgnResult → Exec (World S) MgnResult
  guarded m = try_except m (λ e. pure failure)

  -- StateManagerClient.advance_state with the arguments that the handlers give.
  abbrev pub advance : Value → String → String → JsonObject → Exec (World S) (Unit {0})
  advance server_id new_state job_type metadata = do
    id ← lift (as_text server_id)
    Client.advance_state id new_state none (some job_type) (some metadata)

  -- The first item's lifecycle, or the ValueError of _get_lifecycle_state.
  abbrev pub first_lifecycle : List SourceServer → Exec (World S) String
  first_lifecycle [] = raise (value_error "not found in MGN")
  first_lifecycle (item ∷ rest) = pure (get_or "UNKNOWN" item.lifecycle_state)

  -- MgnWorker._get_lifecycle_state
  unfoldable pub get_lifecycle_state : Services S → Value → Exec (World S) String
  unfolding read
  get_lifecycle_state aws aws_id = do
    items ← read aws (aws.describe_source_servers aws_id)
    first_lifecycle items
