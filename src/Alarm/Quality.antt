-- ===== src/Alarm/Quality.antt =====
-- The qualities of ms-viewer/internal/domain/trend.go.
use text.Mathlib.Text.{◌==◌ as text_eq}
use controlitix.Common.{ℕ, zero, suc, ◌≡◌, refl, String, Option, none, some, if◌then◌else◌}

-- The qualities that ParseQuality accepts.
pub data Quality : Type 0 where
  ok hi hihi uncertain bad comm_loss offline acknowledged : Quality

unfoldable pub quality_text : Quality → String
quality_text ok = "ok"
quality_text hi = "hi"
quality_text hihi = "hihi"
quality_text uncertain = "uncertain"
quality_text bad = "bad"
quality_text comm_loss = "comm_loss"
quality_text offline = "offline"
quality_text acknowledged = "acknowledged"

-- Quality.ToCode
unfoldable pub to_code : Quality → ℕ
to_code hi = 1
to_code hihi = 2
to_code uncertain = 3
to_code bad = 4
to_code comm_loss = 5
to_code offline = 6
to_code acknowledged = 7
to_code _ = 0

-- QualityFromCode
unfoldable pub quality_from_code : ℕ → Quality
quality_from_code (suc zero) = hi
quality_from_code (suc (suc zero)) = hihi
quality_from_code (suc (suc (suc zero))) = uncertain
quality_from_code (suc (suc (suc (suc zero)))) = bad
quality_from_code (suc (suc (suc (suc (suc zero))))) = comm_loss
quality_from_code (suc (suc (suc (suc (suc (suc zero)))))) = offline
quality_from_code (suc (suc (suc (suc (suc (suc (suc zero))))))) = acknowledged
quality_from_code _ = ok

unfoldable pub parse_quality : String → Option Quality
parse_quality s =
    if text_eq s "ok"
    then some ok
    else if text_eq s "hi"
    then some hi
    else if text_eq s "hihi"
    then some hihi
    else if text_eq s "uncertain"
    then some uncertain
    else if text_eq s "bad"
    then some bad
    else if text_eq s "comm_loss"
    then some comm_loss
    else if text_eq s "offline"
    then some offline
    else if text_eq s "acknowledged"
    then some acknowledged
    else none

-- A quality survives being written as text and read back, and being stored as a code and loaded.
pub parse_quality-quality_text :
    (q : Quality) → (parse_quality (quality_text q) ≡ some q) × (quality_from_code (to_code q) ≡ q)
unfolding parse_quality quality_text to_code quality_from_code
parse_quality-quality_text ok = (refl, refl)
parse_quality-quality_text _ = (refl, refl)
