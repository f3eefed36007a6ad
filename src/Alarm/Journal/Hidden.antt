-- ===== src/Alarm/Journal/Hidden.antt =====
-- ListActiveUnacked against Acknowledge, both in
-- ms-viewer/internal/infrastructure/repository/alarm_repository.go.
use controlitix.Common.{nat_key}
use controlitix.Common.Map.{Map}
