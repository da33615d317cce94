-- ===== src/Enums/Wire.antt =====
-- How the stages of rustc's lowering are obtained, and what the wire values tell apart.
use assemblage.Prelude.{◌≡◌, arith}
use assemblage.Enums.{BuildStatus, build_status_value}

-- A build status is determined by its wire value.
pub build_status_value-injective :
    (a b : BuildStatus) → build_status_value a ≡ build_status_value b → a ≡ b
unfolding build_status_value
build_status_value-injective a b h = ground arith
