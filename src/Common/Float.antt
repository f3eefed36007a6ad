-- ===== src/Common/Float.antt =====
-- float64: the carrier and the operations that the program uses are an argument of the models.
-- What a theorem needs of IEEE comparison is a hypothesis of that theorem.
use controlitix.Common.{Bool}

pub record Float64 : Type 1 where
  pub F : Type 0
  pub ge : F → F → Bool  -- a >= b
  pub gt : F → F → Bool  -- a > b
  pub le : F → F → Bool  -- a <= b
  pub lt : F → F → Bool  -- a < b
  pub add : F → F → F
  pub sub : F → F → F
  pub mul : F → F → F
  pub div : F → F → F
  pub abs : F → F  -- math.Abs
  pub zero_value : F
  pub two : F
  pub hundred : F
