-- ===== src/Jobs/Routing.antt =====
-- The values of the job types are read back.
use migration_orchestrator_k.Prelude.{◌≡◌, refl, some}
use migration_orchestrator_k.Jobs.{JobType, add_server, job_value, parse_job_type}

pub parse_job_type-job_value : (j : JobType) → parse_job_type (job_value j) ≡ some j
unfolding parse_job_type
parse_job_type-job_value add_server = refl
parse_job_type-job_value _ = refl
