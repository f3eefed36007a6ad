-- ===== src/Lib.antt =====
-- Controlitix: the verification library of the services of this repository.
--
-- The poller (ms-poll) reads the tags of the configured devices and publishes their values; the
-- viewer (ms-viewer) ingests the values, keeps the alarm state of each tag and tells its clients;
-- ms-auth keeps users, roles and service accounts, logs in, issues tokens and limits failed
-- attempts.
-- Modelled are the poller's store of the configuration and its scheduler, the Modbus driver's
-- planning and decoding, the alarm engine, and the services of ms-auth.
--
-- Common: lists, Go maps as association lists (Common/Map), (value, error) results
--   (Common/Result), int (Common/Int) and the operations of float64, which are an argument of the
--   models (Common/Float).
-- Snapshot: the configuration data of ms-poll/internal/domain/snapshot.go, with Snapshot/Store for
--   SnapshotStore of internal/usecase/snapshot_store.go and snapshot_subscription.go
--   (SnapshotStore.UpsertTag is upsert_tag) and Snapshot/Clone for cloneSnapshot. Go's pointers to
--   copied tags are the values; the order of a range loop is that of the association list.
--   Snapshot/Changes is internal/usecase/config_event_handler.go (ConfigEventHandler.Handle is
--   handle), Snapshot/Scheduler the table of workers of internal/usecase/scheduler.go.
-- Modbus: ms-poll/internal/infrastructure/driver/modbus. Modbus/Address is address.go
--   (ParseTagAddress is parse_tag_address), Modbus/Batch is batch.go (BuildBatches is
--   build_batches, buildBatchesByRegisterType its namesake, one pass of its loop is add_tag),
--   Modbus/Decode is decode.go and decodeSlot of tcp.go. Offsets and lengths are uint16, sums are
--   taken modulo 2^32 where the code does, and the bounds check of an address is a sum of int.
--   encoding/json, the Unicode tables and sort.Slice are arguments; the last with its contract.
-- Alarm: ms-viewer. Alarm/Quality and Alarm/Types are internal/domain/trend.go and alarm.go,
--   Alarm/Evaluator is internal/domain/alarm_evaluator.go, Alarm/Store and Alarm/Ack are
--   internal/infrastructure/repository/alarm_repository.go over the tables of
--   migrations/000002_alarms.sql, Alarm/Engine and Alarm/Requests are
--   internal/usecase/alarm_usecase.go. A database call that fails is a flag of the operation; a
--   transaction that fails changes nothing. A goroutine that publishes is a value until it ends.
--   Alarm/Journal reads the event log as a history; Alarm/Journal/Steps is the engine as a step
--   relation, in which one message, or the end of one goroutine, is one step.
-- Auth: ms-auth over the tables of migrations/000001_auth_schema.sql. Auth/Types is internal/domain,
--   Auth/Names the loops over roles and scopes. Auth/Sessions is
--   internal/infrastructure/repository/refresh_token_repository.go, Auth/Tokens and Auth/Rotation
--   are internal/usecase/token_service.go (TokenService.Rotate is rotate, what it does after
--   FindByHash is rotate_found, so that two calls can be interleaved). Auth/Users is
--   user_repository.go; Auth/Admin, with its children Create, Update and Roles, is
--   internal/usecase/admin_service.go (DeactivateUser is deactivate_user, what it does after its
--   checks is deactivate_checked); Auth/Admin/Services has its service accounts. Auth/Accounts is
--   service_account_repository.go, Auth/Clients is internal/usecase/service_token_service.go
--   (ServiceTokenService.Issue is issue), Auth/Login is internal/usecase/auth_service.go with
--   infrastructure/identity/local.go (AuthService.Authenticate is authenticate). The other
--   children of Rotation, Admin, Names, Clients and Login are proofs. Every database call has a
--   flag that makes it fail; random values, signatures, hashes and base64 are arguments.
-- RateLimit: ms-auth/internal/usecase/ratelimit/limiter.go (Limiter.Allow is allow).
-- Samples: runs of the models and the theorems at concrete inputs.
--
-- All loops are structural recursion, so no model runs on fuel. Not modelled: the lists that SQL
-- only reads for a page, HTTP handlers, Kafka clients, timers, sockets and serial ports, which are
-- input and output; the goroutine of a polled device, the readings and their normalisation in
-- ms-poll; the realtime hub, trends and notifications of ms-viewer; ms-editor; the front ends.
pub mod Common
pub mod Snapshot
pub mod Modbus
pub mod Alarm
pub mod Auth
pub mod RateLimit
pub mod Samples
