-- ===== src/Core/Mode.antt =====
-- The small enums of crates/tracegate-core/src/lib.rs: `RuntimeMode`, `CapturePolicy`, `PluginHook`.
use trace_gate.Base.{Bool, true, false, ◌||◌}
use trace_gate.Text.{Text, codes}

pub data RuntimeMode : Type 0 where
  demo production : RuntimeMode

unfoldable pub mode_as_str : RuntimeMode → Text
mode_as_str demo = codes "demo"
mode_as_str production = codes "production"

unfoldable pub is_production : RuntimeMode → Bool
is_production production = true
is_production demo = false

pub data CapturePolicy : Type 0 where
  off errors slow errors_and_slow always : CapturePolicy

unfoldable pub policy_as_str : CapturePolicy → Text
policy_as_str off = codes "off"
policy_as_str errors = codes "errors"
policy_as_str slow = codes "slow"
policy_as_str errors_and_slow = codes "errors_and_slow"
policy_as_str always = codes "always"

-- `policy != CapturePolicy::Off`
unfoldable pub is_on : CapturePolicy → Bool
is_on off = false
is_on errors = true
is_on slow = true
is_on errors_and_slow = true
is_on always = true

unfoldable pub should_capture : CapturePolicy → Bool → Bool → Bool
should_capture off is_error is_slow = false
should_capture errors is_error is_slow = is_error
should_capture slow is_error is_slow = is_slow
should_capture errors_and_slow is_error is_slow = is_error || is_slow
should_capture always is_error is_slow = true

pub data PluginHook : Type 0 where
  before_request : PluginHook

unfoldable pub hook_as_str : PluginHook → Text
hook_as_str before_request = codes "before_request"
