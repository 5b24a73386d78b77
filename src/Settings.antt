-- ===== src/Settings.antt =====
-- `Settings.validate` of src/titanbox/settings.py and the check of the admin token of
-- src/titanbox/auth.py. `urlparse`, `bot_descriptors`, `deploy_admin_ids` and the Base32 pattern are
-- read off beforehand: the record has what they gave. Texts that are missing are empty.
pub mod Laws
use vpsssssskjwjw.Prelude.{
  ℕ, ◌+◌, Bool, true, false, ◌&&◌, ◌||◌, not, Option, none, some, List, [], ◌∷◌, Text, text_eq,
  nat_eq, ◌==◌, codes, has_infix, leb, ltb, length, if◌then◌else◌,
}
use vpsssssskjwjw.Prelude.Result.{Result, ok, err, ◌>>=◌, ◌>>◌, guard}

-- `urlparse(url)`
pub record Url : Type 0 where
  pub scheme : Text
  pub netloc : Text
  pub hostname : Text

pub record Settings : Type 0 where
  pub enable_terminal : Bool
  pub terminal_user : Text
  pub terminal_password : Text
  pub admin_api_enabled : Bool
  pub admin_token : Text
  -- whether DEPLOY_TOTP_SECRET is set, and whether it passes the pattern and the length
  pub has_totp : Bool
  pub totp_valid : Bool
  -- for each bot the text of its plugin, `none` where the descriptor is no object
  pub descriptors : List (Option Text)
  pub max_bots_per_runtime : ℕ
  pub control_plane_only : Bool
  pub auto_register_webhooks : Bool
  pub public_base_url : Option Url
  pub storage_backend : Text
  pub s3_bucket : Text
  pub s3_access_key_id : Text
  pub s3_secret_access_key : Text
  pub release_signing_key : Text
  pub s3_endpoint_url : Option Url
  pub durability_required : Bool
  pub database_required : Bool
  pub postgres_dsn : Option Url
  pub db_pool_min : ℕ
  pub db_pool_max : ℕ
  pub admin_ids_valid : Bool

-- The `ValueError`s, by the setting that they name.
pub data Invalid : Type 0 where
  terminal_missing terminal_short admin_token_missing totp_invalid too_many_bots foreign_bot :
      Invalid
  url_missing url_not_https url_invalid backend_unknown s3_incomplete endpoint_invalid : Invalid
  durability_without_s3 signing_key_short dsn_missing dsn_invalid pool_invalid admin_ids_invalid :
      Invalid

-- `bool(text)`
abbrev pub is_set : Text → Bool
is_set [] = false
is_set (c ∷ s) = true

abbrev pub admin_plugin : Text
admin_plugin = codes "deploy_admin"

-- `isinstance(descriptor, dict) and "deploy_admin" in str(descriptor.get("plugin", ""))`
abbrev pub names_admin : Option Text → Bool
names_admin none = false
names_admin (some plugin) = has_infix admin_plugin plugin

abbrev pub all_admin : List (Option Text) → Bool
all_admin [] = true
all_admin (d ∷ ds) = names_admin d && all_admin ds

abbrev has_bots : List (Option Text) → Bool
has_bots [] = false
has_bots (d ∷ ds) = true

-- `if condition: checks`
abbrev pub when : Bool → Result Invalid (Unit {0}) → Result Invalid (Unit {0})
when true checks = checks
when false checks = ok tt

unfoldable pub check_public_url : Option Url → Result Invalid (Unit {0})
check_public_url none = err url_missing
check_public_url (some url) = do
  guard
      ((url.scheme == codes "https")
        || ((url.scheme == codes "http")
            && ((url.hostname == codes "127.0.0.1") || (url.hostname == codes "localhost"))))
      url_not_https
  guard (is_set url.netloc) url_invalid

unfoldable pub check_endpoint : Option Url → Result Invalid (Unit {0})
check_endpoint none = ok tt
check_endpoint (some url) =
    guard ((url.scheme == codes "https") && is_set url.netloc) endpoint_invalid

unfoldable pub check_dsn : Option Url → Result Invalid (Unit {0})
check_dsn none = ok tt
check_dsn (some url) =
    guard
      (((url.scheme == codes "postgres") || (url.scheme == codes "postgresql"))
        && is_set url.hostname)
      dsn_invalid

abbrev pub is_url : Option Url → Bool
is_url none = false
is_url (some url) = true

abbrev pub is_s3 : Settings → Bool
is_s3 s = s.storage_backend == codes "s3"

-- The terminal, the admin API, the second factor and the bots.
unfoldable pub check_access : Settings → Result Invalid (Unit {0})
check_access s = do
  when s.enable_terminal (
      guard (is_set s.terminal_user && is_set s.terminal_password) terminal_missing
      >> guard (leb 16 (length s.terminal_password)) terminal_short)
  guard (not (s.admin_api_enabled && not (is_set s.admin_token))) admin_token_missing
  guard (not s.has_totp || s.totp_valid) totp_invalid
  guard
      (not (not (s.max_bots_per_runtime == 0) && ltb s.max_bots_per_runtime (length s.descriptors)))
      too_many_bots
  guard (not s.control_plane_only || all_admin s.descriptors) foreign_bot
  when (s.auto_register_webhooks && has_bots s.descriptors) (check_public_url s.public_base_url)

-- The object storage, the database and the identifiers of the admins.
unfoldable pub check_infrastructure : Settings → Result Invalid (Unit {0})
check_infrastructure s = do
  guard ((s.storage_backend == codes "none") || is_s3 s) backend_unknown
  when (is_s3 s) (
      guard
        (is_set s.s3_bucket
          && (is_set s.s3_access_key_id
              && (is_set s.s3_secret_access_key && is_set s.release_signing_key)))
        s3_incomplete
      >> check_endpoint s.s3_endpoint_url)
  guard (not (s.durability_required && not (is_s3 s))) durability_without_s3
  guard (not (is_s3 s && (is_set s.release_signing_key && ltb (length s.release_signing_key) 32)))
      signing_key_short
  guard (not (s.database_required && not (is_url s.postgres_dsn))) dsn_missing
  check_dsn s.postgres_dsn
  guard (leb s.db_pool_min s.db_pool_max) pool_invalid
  guard s.admin_ids_valid admin_ids_invalid

unfoldable pub validate : Settings → Result Invalid (Unit {0})
validate s = check_access s >> check_infrastructure s

pub data AdminAnswer : Type 0 where
  allowed not_found unauthorized : AdminAnswer

-- `secure_equal`; the encodings are equal if and only if the texts are.
unfoldable pub secure_equal : Text → Text → Bool
secure_equal left right = is_set left && (is_set right && (left == right))

-- `(authorization or "").partition(" ")`, without the separator
unfoldable pub partition : Text → Text × Text
partition [] = ([], [])
partition (c ∷ s) =
    let (scheme, token) = partition s in if c == 32 then ([], s) else (c ∷ scheme, token)

-- `str.lower` on ASCII.
abbrev pub lower : Text → Text
lower [] = []
lower (c ∷ s) = (if leb 65 c && leb c 90 then c + 32 else c) ∷ lower s

unfoldable pub require_admin_token : Settings → Text → AdminAnswer
require_admin_token s authorization =
    let (scheme, token) = partition authorization in
    if not s.admin_api_enabled || not (is_set s.admin_token)
    then not_found
    else if not (lower scheme == codes "bearer") || not (secure_equal token s.admin_token)
    then unauthorized
    else allowed
