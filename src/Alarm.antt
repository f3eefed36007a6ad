-- ===== src/Alarm.antt =====
-- The alarm engine of ms-viewer: states, evaluation, persistence and the use case.
pub mod Quality
pub mod Types
pub mod Evaluator
pub mod Store
pub mod Ack
pub mod Engine
pub mod Requests
pub mod Journal
