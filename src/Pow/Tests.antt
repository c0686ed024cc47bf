-- ===== src/Pow/Tests.antt =====
-- The difficulty test on a hash just below its target.
use nightfall.Common.{◌-◌, ◌*◌, ◌^◌, ◌<◌, ◌≡◌, ◌↔◌, true, arith}
use nightfall.Pow.{meets_difficulty}
use nightfall.Pow.Meets.{meets_difficulty_iff}

meets_difficulty_iff_example :
    (meets_difficulty (2 ^ 255 - 1) 2 ≡ true) ↔ ((2 ^ 255 - 1) * 2 < 2 ^ 256)
meets_difficulty_iff_example = meets_difficulty_iff (2 ^ 255 - 1) 2 (omega arith) (omega arith)
