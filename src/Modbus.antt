-- ===== src/Modbus.antt =====
-- The Modbus side of ms-poll/internal/infrastructure/driver/modbus: addresses, batches, decoding.
pub mod Address
pub mod Batch
pub mod Decode
