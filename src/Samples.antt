-- ===== src/Samples.antt =====
-- The theorems applied to concrete inputs.
mod Sorting
mod Modbus
mod Alarm
mod Store
mod Tokens
mod Replay
mod Admin
mod LockOut
mod Scopes
mod Login
mod Scheduler
mod RateLimit
