-- ===== src/System/Outage.antt =====
-- While every call of AWS raises, the MGN worker and the poller worker leave everything as it is.
pub mod Mgn
pub mod Poller
pub mod Quiet
use migration_orchestrator_k.Prelude.{
  String, ◌≡◌, refl, ap, inl, inr, Option, none, some, Option-cases, Bool, if◌then◌else◌, List,
}
use migration_orchestrator_k.Exec.{Exc, Result, ok, err, Exec, pure, ◌>>=◌}
use migration_orchestrator_k.Exec.Keeps.{Keeps, keeps_rules}
use migration_orchestrator_k.Exec.Yields.{Yields, Keeps-after, yields_rules}
use migration_orchestrator_k.Jobs
use migration_orchestrator_k.Jobs.{JobType, JsonObject, Value, Body, Message}
use migration_orchestrator_k.Db.{find_server}
use migration_orchestrator_k.Services.{Services, Command, SourceServer, MgnJob, InstanceStatus}
use migration_orchestrator_k.World.{World, call, read}
use migration_orchestrator_k.Client
use migration_orchestrator_k.Mgn.Results.{MgnResult, success, failure, get_lifecycle_state}
use migration_orchestrator_k.Mgn.Onboarding
use migration_orchestrator_k.Mgn.Cutover
use migration_orchestrator_k.Mgn.Stale.{read_state, missing_state}
use migration_orchestrator_k.Mgn.Loop as MgnLoop
use migration_orchestrator_k.Poller.Handlers
use migration_orchestrator_k.Poller.Handlers.{PollResult, complete, in_progress, failed, dispatched}
use migration_orchestrator_k.Poller.Loop as PollerLoop

-- Every call raises.
pub record IsDown {S : Type 0} (aws : Services S) : Type 0 where
  pub command : (c : Command) (s : S) → (e : Exc) × ((aws.command c s).0 ≡ err e)
  pub sources : (v : Value) (s : S) → (e : Exc) × (aws.describe_source_servers v s ≡ err e)
  pub jobs : (v : Value) (s : S) → (e : Exc) × (aws.describe_jobs v s ≡ err e)
  pub statuses : (v : Value) (s : S) → (e : Exc) × (aws.describe_instance_status v s ≡ err e)

module _ {S : Type 0} (aws : Services S) (down : IsDown aws) (Inv : World S → Type 0)
    (outer : (w : World S) (s : S) → Inv w → Inv (record w { outside = s })) where
  module _ {Out : Type 0} {Post : Out → Type 0} where
    pub call_down :
        (c : Command) (next : Option String → Exec (World S) Out)
        → Yields Inv Post (call aws c >>= next)
    unfolding call
    call_down c next = record {
      kept = record {
        holds = λ w h. rw (down.command c w.outside).1 (outer w (aws.command c w.outside).1 h);
      };
      returned = λ w. rw (down.command c w.outside).1 tt;
    }

    pub sources_down :
        (v : Value) (next : List SourceServer → Exec (World S) Out)
        → Yields Inv Post (read aws (aws.describe_source_servers v) >>= next)
    unfolding read
    sources_down v next = record {
      kept = record { holds = λ w h. rw (down.sources v w.outside).1 h };
      returned = λ w. rw (down.sources v w.outside).1 tt;
    }

    pub jobs_down :
        (v : Value) (next : List MgnJob → Exec (World S) Out)
        → Yields Inv Post (read aws (aws.describe_jobs v) >>= next)
    unfolding read
    jobs_down v next = record {
      kept = record { holds = λ w h. rw (down.jobs v w.outside).1 h };
      returned = λ w. rw (down.jobs v w.outside).1 tt;
    }

    pub statuses_down :
        (v : Value) (next : List InstanceStatus → Exec (World S) Out)
        → Yields Inv Post (read aws (aws.describe_instance_status v) >>= next)
    unfolding read
    statuses_down v next = record {
      kept = record { holds = λ w h. rw (down.statuses v w.outside).1 h };
      returned = λ w. rw (down.statuses v w.outside).1 tt;
    }

    pub lifecycle_down :
        (v : Value) (next : String → Exec (World S) Out)
        → Yields Inv Post (get_lifecycle_state aws v >>= next)
    unfolding get_lifecycle_state read
    lifecycle_down v next = record {
      kept = record { holds = λ w h. rw (down.sources v w.outside).1 h };
      returned = λ w. rw (down.sources v w.outside).1 tt;
    }

module _ {S : Type 0} (Inv : World S → Type 0) where
  -- Reading a state changes nothing.
  pub get_state-Keeps : (id : String) → Keeps Inv (Client.get_server_state id)
  get_state-Keeps id = record {
    holds = λ w h. elim (Option-cases (find_server id w.db.servers)) [
      | inl e ↦ rw (missing_state id w e) h
      | inr (r, e) ↦ rw (read_state id r w e) h
    ];
  }
