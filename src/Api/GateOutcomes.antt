-- ===== src/Api/GateOutcomes.antt =====
-- What the approval and rejection endpoints do, on every branch.
use migration_orchestrator_k.Prelude.{
  String, ◌≡◌, ◌≢◌, ◌<>◌, inl, inr, refl, Option, none, some, [], ◌∷◌, Option-cases, str_cases,
  eq_iff,
}
use migration_orchestrator_k.Exec.{Result, ok, err, http}
use migration_orchestrator_k.Transitions.Validate.{NamesEdge}
use migration_orchestrator_k.Jobs.{JobType, JsonObject, str}
use migration_orchestrator_k.Db.{Server, find_server}
use migration_orchestrator_k.StateManager.Servers
use migration_orchestrator_k.StateManager.Advance.{moved, advance_state-moved}
use migration_orchestrator_k.Services.{Services}
use migration_orchestrator_k.World.{World, on_db}
use migration_orchestrator_k.Dispatcher.{dispatch}
use migration_orchestrator_k.Api.Text.{lower}
use migration_orchestrator_k.Api.Gates.{
  ApproveRequest, RejectRequest, notes_metadata, server_job, get_server_or_404, require_state,
  decide, approve_gate, reject_gate,
}

module _ {S : Type 0} (id : String) (w : World S) where
  row_or_404_missing :
      find_server id w.db.servers ≡ none → get_server_or_404 id w ≡ (err (http 404), w)
  unfolding get_server_or_404 on_db Servers.get_server
  row_or_404_missing h = rw (h, Servers.get_server) refl

  row_or_404_found :
      (r : Server) → find_server id w.db.servers ≡ some r → get_server_or_404 id w ≡ (ok r, w)
  unfolding get_server_or_404 on_db Servers.get_server
  row_or_404_found r h = rw (h, Servers.get_server) refl

  module _ (expected : String) where
    -- The three ends of the state check.
    pub data Required (outcome : Result Server × World S) : Type 0 where
      missing :
          find_server id w.db.servers ≡ none → outcome ≡ (err (http 404), w) → Required outcome
      refused :
          (r : Server)
          → find_server id w.db.servers ≡ some r
          → r.current_state ≢ expected
          → outcome ≡ (err (http 409), w)
          → Required outcome
      passed :
          (r : Server)
          → find_server id w.db.servers ≡ some r
          → r.current_state ≡ expected
          → outcome ≡ (ok r, w)
          → Required outcome

    for_row :
        (r : Server) → find_server id w.db.servers ≡ some r → Required (require_state id expected w)
    unfolding require_state
    for_row r h = elim (str_cases r.current_state expected) [
      | inl e ↦ passed r h e (rw (row_or_404_found r h, (eq_iff r.current_state expected).1 e) refl)
      | inr n ↦
          refused r h (λ e. cc (n, (eq_iff r.current_state expected).1 e))
            (rw (row_or_404_found r h, n) refl)
    ]

    pub require_state-Required : Required (require_state id expected w)
    unfolding require_state
    require_state-Required = elim (Option-cases (find_server id w.db.servers)) [
      | inl h ↦ missing h (rw (row_or_404_missing h) refl)
      | inr (r, h) ↦ for_row r h
    ]

    -- A decision on a server in the expected state, along an edge of the diagram.
    decide-moved :
        (to by job_type : String) (metadata : Option JsonObject) (r : Server)
        → find_server id w.db.servers ≡ some r
        → r.current_state ≡ expected
        → NamesEdge expected to
        → decide id to by job_type metadata w
          ≡ (ok tt, record w { db = moved id expected to none (some job_type) by metadata w.db })
    unfolding decide on_db
    decide-moved to by job_type metadata r h e n =
        rw (advance_state-moved id to by none (some job_type) metadata w.db expected r h e n) refl

    module _ (A : Type 0) (accept : Server → Result A × World S) where
      -- A gate: 404 for an unknown server and 409 for a server in another state, both with
      -- nothing changed; else what `accept` says.
      pub data Gated (outcome : Result A × World S) : Type 0 where
        missing : find_server id w.db.servers ≡ none → outcome ≡ (err (http 404), w) → Gated outcome
        refused :
            (r : Server)
            → find_server id w.db.servers ≡ some r
            → r.current_state ≢ expected
            → outcome ≡ (err (http 409), w)
            → Gated outcome
        accepted :
            (r : Server)
            → find_server id w.db.servers ≡ some r
            → r.current_state ≡ expected
            → outcome ≡ accept r
            → Gated outcome

    -- The world after a decision.
    abbrev pub decided : String → String → String → Option JsonObject → World S
    decided to by job_type metadata = record w {
      db = moved id expected to none (some job_type) by metadata w.db;
    }

    pub reject_gate-Gated :
        (body : RejectRequest)
        → NamesEdge expected "FAILED"
        → Gated
            (Unit {0})
            (λ r. (
              ok tt,
              decided "FAILED" body.engineer_id
                  ("reject:" <> lower expected)
                  (some (("reason", str body.reason) ∷ [])),
            ))
            (reject_gate id body expected w)
    unfolding reject_gate
    reject_gate-Gated body n = elim require_state-Required [
      | Required.missing h e ↦ Gated.missing h (rw e refl)
      | Required.refused r h s e ↦ Gated.refused r h s (rw e refl)
      | Required.passed r h s e ↦ Gated.accepted r h s (
          rw
            (
              e,
              decide-moved "FAILED" body.engineer_id ("reject:" <> lower expected)
                  (some (("reason", str body.reason) ∷ [])) r h s n,
            )
            refl)
    ]

    pub approve_gate-Gated :
        (aws : Services S) (body : ApproveRequest) (next : String) (j : JobType)
        → NamesEdge expected next
        → Gated
            (Unit {0})
            (λ r. dispatch aws j (server_job id r.aws_source_server_id) (
              decided next body.engineer_id
                ("approve:" <> lower expected)
                (notes_metadata body.notes)))
            (approve_gate aws id body expected next j w)
    unfolding approve_gate
    approve_gate-Gated aws body next j n = elim require_state-Required [
      | Required.missing h e ↦ Gated.missing h (rw e refl)
      | Required.refused r h s e ↦ Gated.refused r h s (rw e refl)
      | Required.passed r h s e ↦ Gated.accepted r h s (
          rw
            (
              e,
              decide-moved next body.engineer_id ("approve:" <> lower expected)
                  (notes_metadata body.notes) r h s n,
            )
            refl)
    ]
