-- ===== src/Lib.antt =====
-- Migration Orchestrator: servers are moved to AWS through a pipeline of 29 states. An API takes the
-- decisions of engineers, three workers carry out jobs from RabbitMQ queues, and one StateManager
-- writes the states and their history to PostgreSQL.
--
-- The parts, and the files that model them:
--  - src/state_manager/states.py: States (the enumeration and its sets); States/Values.
--  - src/state_manager/transitions.py: Transitions (the map, validate and the other methods);
--    Transitions/Diagram states the pipeline by stage numbers, Transitions/Validate compares.
--  - src/dispatcher/job_types.py: Jobs (job types, queues, the JSON bodies and their keys); Jobs/Routing, Jobs/Reading.
--  - src/db/versions: Db (the three tables, their keys and the SQL statements on them); Db/Rows, and
--    Db/Order on WHERE and ORDER BY.
--  - src/state_manager/state_manager.py: StateManager, with Moves (advance_state, reset_server,
--    set_aws_source_server_id), Servers, Batches and Queries for the methods, and Advance, Reset,
--    Change, Unattended, Audit, Frozen, Pipeline, Waves and Reads for what they do; Board is the
--    abstract view that they implement: a state and a batch for each server, and the batches.
--  - src/dispatcher/dispatcher.py: Dispatcher, also for the _dispatch helpers of the workers; Link
--    for connect and close.
--  - src/workers/state_manager_client.py: Client.
--  - src/workers/mgn_worker.py, mgn_result.py: Mgn (Results, Onboarding, Cutover, Loop; Stale, Delivery,
--    Preflight).
--  - src/workers/poller_worker.py, poll_result.py: Poller (Handlers, Loop; Stale, Attempts,
--    Delivery).
--  - src/workers/rollback_worker.py, rollback_result.py: Rollback (Plans, Outcome, Messages).
--  - src/api/routes/servers.py, src/api/models.py: Api/Gates, Api/Servers, Api/Bulk, Api/Text;
--    GateOutcomes and GateTable on the gates, Registration on new servers, JobRequests on the
--    requests without a gate. Api/Queries also has
--    src/api/routes/history.py.
--  - src/api/routes/batches.py: Api/Batches, Api/BatchGates; BatchOutcomes on the loops.
--  - how they run together: Services (what is asked of AWS, of the broker and of uuid4), World (the
--    database, the queues, the outside), System (Requests and Run: the steps; Changes, Mgn, Poller,
--    Rollback, Endpoints, Serve: what every part keeps; History, Terminal, Approval, Unreached, Members:
--    runs; Outdated: the instance polls; Outage: the workers while AWS is down; Load: how much work the
--    queues hold, with Turns, Rest, Rounds and Limit on how it shrinks).
--  - Prelude, Exec, Exec/Keeps, Exec/Yields, Exec/Adds: shared names, methods that change state and
--    may raise, and the rules by which they keep a property, return a good result, or add at most so
--    much to a measure. Witnesses: the properties at concrete inputs.
--
-- A method is a function from the state to a result and the next state; what was written before a
-- raise stays written, except in a database transaction. A step of the system is one request or one
-- message, from its receipt to its ack or nack, or a change of the clock or of the outside; a rejected
-- message goes to the dead-letter queue of its queue, and a message has its own step again only if
-- some part publishes it again. The loops of the code run over lists and are structural recursion; no
-- fuel is used. Numbers are unbounded, as in Python.
--
-- Parameters: AWS, the broker's confirms and uuid4 are a record of functions on the outside state, and
-- aio_pika's connections another, of which nothing is assumed, but that a closed connection says so;
-- ILIKE and the reading of a timestamp, which may raise, are arguments of the queries. The texts of the
-- database's exceptions for a key are functions that the tables carry, and any texts.
-- Not modelled: log output and texts that only reach it, the JSON text of a message (its object is
-- modelled, with its keys, and with values of the kinds that the code writes under them), response
-- models, connections that break later, the start of consuming, redelivery, and the interleaving of
-- two handlers between their awaits. The key of the history table is left out, and rows that ORDER BY
-- does not tell apart keep the order of the table. The lower case of a text is that of ASCII.
-- The start-up scripts and the deployment files are left out.
mod Prelude
pub mod Exec
pub mod States
pub mod Transitions
pub mod Jobs
pub mod Db
pub mod StateManager
pub mod Services
pub mod World
pub mod Dispatcher
pub mod Client
pub mod Mgn
pub mod Poller
pub mod Rollback
pub mod Api
pub mod System
mod Witnesses
