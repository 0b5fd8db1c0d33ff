-- ===== src/System/Load/FollowUps.antt =====
-- What each message that the MGN worker publishes adds to the load.
use migration_orchestrator_k.Prelude.{[], ◌∷◌}
use migration_orchestrator_k.Exec.Adds.{Adds, or_zero}
use migration_orchestrator_k.Jobs
use migration_orchestrator_k.Jobs.{
  JobType, JsonObject, Value, Message, job_value, parse_job_type, job_type_of, required,
  get_default, queue_routing,
}
use migration_orchestrator_k.Services.{Services}
use migration_orchestrator_k.Dispatcher.{dispatch_follow_up, follow_up}
use migration_orchestrator_k.Mgn.Results.{server_payload}
use migration_orchestrator_k.System.Load.{load, message_cost, publish_poll-Adds, publish_mgn-Adds}

module _ {S : Type 0} (aws : Services S) where
  pub poll_replication-Costs :
      (payload : JsonObject)
      → Adds (load {S = S}) 60 (dispatch_follow_up aws Jobs.poll_replication_status payload)
  unfolding dispatch_follow_up message_cost or_zero Jobs.load required job_type_of parse_job_type
      job_value queue_routing
  poll_replication-Costs payload =
      publish_poll-Adds aws (follow_up Jobs.poll_replication_status payload)

  pub poll_sync-Costs :
      (payload : JsonObject)
      → Adds (load {S = S}) 60 (dispatch_follow_up aws Jobs.poll_cutover_sync_status payload)
  unfolding dispatch_follow_up message_cost or_zero Jobs.load required job_type_of parse_job_type
      job_value queue_routing
  poll_sync-Costs payload = publish_poll-Adds aws (follow_up Jobs.poll_cutover_sync_status payload)

  pub poll_disconnect-Costs :
      (payload : JsonObject)
      → Adds (load {S = S}) 60 (dispatch_follow_up aws Jobs.poll_disconnect_status payload)
  unfolding dispatch_follow_up message_cost or_zero Jobs.load required job_type_of parse_job_type
      job_value queue_routing
  poll_disconnect-Costs payload =
      publish_poll-Adds aws (follow_up Jobs.poll_disconnect_status payload)

  pub poll_cutover-Costs :
      (server_id aws_id : Value)
      → Adds (load {S = S}) 1862 (
          dispatch_follow_up aws Jobs.poll_cutover_instance_status
            (server_payload server_id aws_id))
  unfolding dispatch_follow_up message_cost or_zero Jobs.load required job_type_of parse_job_type
      job_value queue_routing get_default
  poll_cutover-Costs server_id aws_id =
      publish_poll-Adds aws
        (follow_up Jobs.poll_cutover_instance_status (server_payload server_id aws_id))

  pub poll_test-Costs :
      (server_id aws_id job_id : Value)
      → Adds (load {S = S}) 1862 (
          dispatch_follow_up aws Jobs.poll_test_instance_status (
            ("server_id", server_id)
            ∷ ("aws_source_server_id", aws_id)
            ∷ ("mgn_job_id", job_id)
            ∷ []))
  unfolding dispatch_follow_up message_cost or_zero Jobs.load required job_type_of parse_job_type
      job_value queue_routing get_default
  poll_test-Costs server_id aws_id job_id = publish_poll-Adds aws (
      follow_up Jobs.poll_test_instance_status
        (("server_id", server_id) ∷ ("aws_source_server_id", aws_id) ∷ ("mgn_job_id", job_id) ∷ []))

  pub disconnect-Costs :
      (payload : JsonObject)
      → Adds (load {S = S}) 62 (dispatch_follow_up aws Jobs.disconnect_source_server payload)
  unfolding dispatch_follow_up message_cost or_zero Jobs.load required job_type_of parse_job_type
      job_value queue_routing
  disconnect-Costs payload = publish_mgn-Adds aws (follow_up Jobs.disconnect_source_server payload)
