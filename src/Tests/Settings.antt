-- ===== src/Tests/Settings.antt =====
-- The checks of src/titanbox/settings.py and src/titanbox/auth.py at concrete inputs.
use vpsssssskjwjw.Prelude.{ℕ, ◌≡◌, refl, Bool, true, false, none, some, [], ◌∷◌, codes}
use vpsssssskjwjw.Settings.{Settings, is_set, validate, allowed, partition, require_admin_token}
use vpsssssskjwjw.Settings.Laws.{IsSafe, validate-IsSafe, require_admin_token-allowed}

abbrev settings : Settings
settings = record {
  enable_terminal = false;
  terminal_user = [];
  terminal_password = [];
  admin_api_enabled = true;
  admin_token = codes "token";
  has_totp = true;
  totp_valid = true;
  descriptors = some (codes "titanbox.plugins.deploy_admin:DeployAdminPlugin") ∷ [];
  max_bots_per_runtime = 1;
  control_plane_only = true;
  auto_register_webhooks = false;
  public_base_url = none;
  storage_backend = codes "s3";
  s3_bucket = codes "b";
  s3_access_key_id = codes "i";
  s3_secret_access_key = codes "k";
  release_signing_key = codes "0123456789abcdef0123456789abcdef";
  s3_endpoint_url = none;
  durability_required = true;
  database_required = false;
  postgres_dsn = none;
  db_pool_min = 1;
  db_pool_max = 4;
  admin_ids_valid = true;
}

validate-IsSafe_example : IsSafe settings
unfolding validate vpsssssskjwjw.Prelude.has_infix vpsssssskjwjw.Settings.check_access
    vpsssssskjwjw.Prelude.ℕ_discrete vpsssssskjwjw.Settings.check_infrastructure
    vpsssssskjwjw.Prelude.text_dec vpsssssskjwjw.Settings.check_endpoint
    vpsssssskjwjw.Settings.check_dsn
validate-IsSafe_example = validate-IsSafe settings refl

require_admin_token-allowed_example :
    (true ≡ true)
    × ((partition (codes "Bearer token")).1 ≡ codes "token")
    × (is_set (codes "token") ≡ true)
unfolding require_admin_token vpsssssskjwjw.Prelude.text_dec partition
    vpsssssskjwjw.Settings.secure_equal
require_admin_token-allowed_example =
    require_admin_token-allowed settings (codes "Bearer token") refl
