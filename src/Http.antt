-- ===== src/Http.antt =====
-- The routes of src/titanbox/main.py that decide something: the readiness probe, the wake endpoint, the
-- guard of the metrics, and the administrators' routes over apps and webhooks.
pub mod Ready
use vpsssssskjwjw.Prelude.{
  ℕ, Bool, true, false, ◌&&◌, ◌||◌, not, Option, none, some, List, [], ◌∷◌, ◌++◌, Text, text_eq,
  ◌==◌, codes, contains, if◌then◌else◌,
}
use vpsssssskjwjw.Settings.{
  is_set, secure_equal, partition, lower, Settings, AdminAnswer, allowed, not_found, unauthorized,
  require_admin_token,
}
use vpsssssskjwjw.Infrastructure.{
  Requirements, Startup, Reason, runner_not_started, one_or_more_bots_not_ready, reason_unless,
  required_ready,
}
use vpsssssskjwjw.Telegram.Webhooks.{Webhook, all_ready}

-- The settings that the routes read.
pub record HttpSettings : Type 0 where
  pub enable_runner : Bool
  pub wake_endpoint_enabled : Bool
  pub metrics_public : Bool
  pub metrics_token : Text
  pub has_base_url : Bool

-- What a probe finds: the runner, the hub and the infrastructure.
pub record Service : Type 0 where
  pub runner_started : Bool
  pub configured_count : ℕ
  pub runtime : List Webhook
  pub startup : Startup

-- The reasons of `/readyz`.
unfoldable pub readyz_reasons : HttpSettings → Requirements → Service → List Reason
readyz_reasons h q s =
    reason_unless (not h.enable_runner || s.runner_started) runner_not_started
    ++ (reason_unless (all_ready s.configured_count s.runtime) one_or_more_bots_not_ready
        ++ required_ready q s.startup)

abbrev status_of : List Reason → ℕ
status_of [] = 200
status_of (r ∷ rs) = 503

-- The status of `/readyz`.
unfoldable pub readyz : HttpSettings → Requirements → Service → ℕ
readyz h q s = status_of (readyz_reasons h q s)

-- `/wakez`
unfoldable pub wakez : HttpSettings → ℕ
wakez h = if not h.wake_endpoint_enabled then 404 else 200

-- `_metrics_auth`: whether the metrics are shown. Every refusal is a 404.
unfoldable pub metrics_auth : HttpSettings → Text → ℕ
metrics_auth h authorization =
    let (scheme, token) = partition authorization in
    if h.metrics_public
    then 200
    else if not (is_set h.metrics_token)
    then 404
    else if not (lower scheme == codes "bearer") || not (secure_equal token h.metrics_token)
    then 404
    else 200

abbrev pub after_guard : ℕ → AdminAnswer → ℕ
after_guard status allowed = status
after_guard status not_found = 404
after_guard status unauthorized = 401

-- `_state_or_404` behind the guard: the status before an app is started, stopped or restarted.
unfoldable pub app_route : Settings → Text → List Text → Text → ℕ
app_route s authorization states name =
    after_guard (if not (contains states name) then 404 else 200)
      (require_admin_token s authorization)

-- `register_webhooks` behind the guard: the status before any webhook is registered.
unfoldable pub register_route : HttpSettings → Settings → Text → ℕ
register_route h s authorization =
    after_guard (if not h.has_base_url then 400 else 200) (require_admin_token s authorization)
