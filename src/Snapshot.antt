-- ===== src/Snapshot.antt =====
-- ms-poll/internal/domain/snapshot.go: the configuration that the poller works on.
-- A float64 is its bit pattern, a time is a number of nanoseconds, raw JSON is a list of bytes.
-- A map holds no nil pointer: the loader and the store put none in.
pub mod Clone
pub mod Store
pub mod Integrity
pub mod Copies
pub mod Consistent
pub mod Refinement
pub mod Scheduler
pub mod Changes
use controlitix.Common.{ℕ, String, List, Option}
use controlitix.Common.Map.{Map}

pub record DeviceSnapshot : Type 0 where
  pub id : String
  pub object_id : Option String
  pub type_id : ℕ
  pub type_name : String
  pub name : String
  pub settings : List ℕ
  pub updated_at : ℕ

pub record TagScaling : Type 0 where
  pub raw_min : Option ℕ
  pub raw_max : Option ℕ
  pub eng_min : Option ℕ
  pub eng_max : Option ℕ
  pub factor : Option ℕ
  pub offset : Option ℕ

pub record TagSetpoints : Type 0 where
  pub lolo : Option ℕ
  pub lo : Option ℕ
  pub hi : Option ℕ
  pub hihi : Option ℕ

pub record TagSnapshot : Type 0 where
  pub id : String
  pub device_id : String
  pub name : String
  pub data_type : String
  pub unit_symbol : Option String
  pub address : List ℕ
  pub scaling : Option TagScaling
  pub setpoints : Option TagSetpoints
  pub updated_at : ℕ

pub record Snapshot : Type 0 where
  pub devices : Map String DeviceSnapshot
  pub tags : Map String TagSnapshot
  pub tags_by_device : Map String (List TagSnapshot)
  pub loaded_at : ℕ
