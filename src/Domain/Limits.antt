-- ===== src/Domain/Limits.antt =====
-- packages/domain/src/limits.ts. Durations are in milliseconds.
use qmk_web_app.Common.{ℕ, ◌*◌}

-- LIMITS

abbrev pub max_layers : ℕ
max_layers = 8

abbrev pub max_positions_per_layout : ℕ
max_positions_per_layout = 512

abbrev pub max_macros : ℕ
max_macros = 16

abbrev pub max_macro_steps : ℕ
max_macro_steps = 64

abbrev pub max_macro_step_delay_ms : ℕ
max_macro_step_delay_ms = 5000

abbrev pub max_macro_total_delay_ms : ℕ
max_macro_total_delay_ms = 30000

-- BUILD_LIMITS

abbrev pub max_global_active_builds : ℕ
max_global_active_builds = 8

abbrev pub max_active_builds_per_owner : ℕ
max_active_builds_per_owner = 2

abbrev pub max_builds_per_owner_per_hour : ℕ
max_builds_per_owner_per_hour = 20

abbrev pub build_lease_ms : ℕ
build_lease_ms = 120000

abbrev pub max_build_attempts : ℕ
max_build_attempts = 3

abbrev pub artifact_retention_ms : ℕ
artifact_retention_ms = 7 * 24 * 60 * 60 * 1000

abbrev pub log_retention_ms : ℕ
log_retention_ms = 7 * 24 * 60 * 60 * 1000
