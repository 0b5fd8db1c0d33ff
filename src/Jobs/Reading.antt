-- ===== src/Jobs/Reading.antt =====
-- Messages that name a job type and a server, and what the workers read from them.
use migration_orchestrator_k.Prelude.{
  String, ◌≡◌, inl, inr, refl, some, List, Bool-cases, eq_refl, ◌==◌, arith, [], ◌∷◌,
}
use migration_orchestrator_k.Exec.{ok}
use migration_orchestrator_k.Jobs.{
  JobType, JsonObject, Body, entry, assign, Message, str, job_value, load, required, job_type_of,
  get_item, get_default, Value,
}
use migration_orchestrator_k.Jobs.Routing.{parse_job_type-job_value}

-- The message asks for job `j` on server `id`.
pub record Asks (m : Message) (id : String) (j : JobType) : Type 0 where
  pub body : Body
  pub payload : JsonObject
  pub has_body : m.body ≡ some body
  pub has_type : entry body.texts "job_type" ≡ some (job_value j)
  pub has_payload : entry body.objects "payload" ≡ some payload
  pub has_server : get_item payload "server_id" ≡ ok (str id)

pub load-Asks : (m : Message) (id : String) (j : JobType) (a : Asks m id j) → load m ≡ ok a.body
unfolding load
load-Asks m id j a = rw a.has_body refl

pub type-Asks :
    (m : Message) (id : String) (j : JobType) (a : Asks m id j)
    → required "job_type" (entry a.body.texts "job_type") ≡ ok (job_value j)
unfolding required
type-Asks m id j a = rw a.has_type refl

pub payload-Asks :
    (m : Message) (id : String) (j : JobType) (a : Asks m id j)
    → required "payload" (entry a.body.objects "payload") ≡ ok a.payload
unfolding required
payload-Asks m id j a = rw a.has_payload refl

pub job_type_of-job_value : (j : JobType) → job_type_of (job_value j) ≡ ok j
unfolding job_type_of
job_type_of-job_value j = rw (parse_job_type-job_value j, job_type_of) refl

-- `d.get(key, default)` is `d[key]` where that does not raise.
pub get_default-item :
    (payload : JsonObject) (key : String) (default v : Value)
    → get_item payload key ≡ ok v
    → get_default payload key default ≡ v
unfolding get_item get_default
get_default-item [] key default v h = cc
get_default-item ((k, u) ∷ rest) key default v h =
    ground (arith, get_default-item rest key default v)

-- A key holds what it was last given.
pub entry-assign {ℓ} :
    {A : Type ℓ} (l : List (String × A)) (key : String) (a : A)
    → entry (assign l key a) key ≡ some a
entry-assign [] key a = rw (eq_refl key) refl
entry-assign ((k, b) ∷ rest) key a = elim (Bool-cases (k == key)) [
  | inl e ↦ rw (e, e) refl
  | inr e ↦ rw (e, e) (entry-assign rest key a)
]
