-- ===== src/Settings/Laws.antt =====
-- What src/titanbox/settings.py and src/titanbox/auth.py let through.
use vpsssssskjwjw.Prelude.{
  ◌≡◌, refl, true, ◌||◌, not, Option, none, some, List, [], ◌∷◌, ◌++◌, Text, text_eq, nat_eq,
  has_infix_sound, leb, length, All, arith,
}
use vpsssssskjwjw.Prelude.Result.{Result, ok, err, ◌>>◌}
use vpsssssskjwjw.Settings.{
  Settings, is_set, admin_plugin, all_admin, is_url, is_s3, check_access, check_infrastructure,
  Invalid, validate, allowed, secure_equal, partition, require_admin_token,
}

-- The descriptor is an object, and the text of the Deploy Admin stands somewhere in its plugin.
abbrev pub NamesAdmin : Option Text → Type 0
NamesAdmin none = ⊥
NamesAdmin (some plugin) =
    (before : Text) × (after : Text) × (plugin ≡ before ++ (admin_plugin ++ after))

all_admin-NamesAdmin : (ds : List (Option Text)) → all_admin ds ≡ true → All NamesAdmin ds
all_admin-NamesAdmin [] h = tt
all_admin-NamesAdmin (none ∷ ds) h = absurd (cc h)
all_admin-NamesAdmin (some plugin ∷ ds) h = (
  has_infix_sound admin_plugin plugin (ground (arith, h)),
  all_admin-NamesAdmin ds (ground (arith, h)),
)

-- What settings that pass guarantee; `not b || c` is that `b` implies `c`.
pub record IsSafe (s : Settings) : Type 0 where
  pub terminal_guarded : (not s.enable_terminal || leb 16 (length s.terminal_password)) ≡ true
  pub admin_guarded : (not s.admin_api_enabled || is_set s.admin_token) ≡ true
  pub isolated : s.control_plane_only ≡ true → All NamesAdmin s.descriptors
  pub durable : (not s.durability_required || is_s3 s) ≡ true
  pub signed : (not (is_s3 s) || leb 32 (length s.release_signing_key)) ≡ true
  pub database_given : (not s.database_required || is_url s.postgres_dsn) ≡ true
  pub pool_ordered : leb s.db_pool_min s.db_pool_max ≡ true

>>-ok-left : (a b : Result Invalid (Unit {0})) → (a >> b) ≡ ok tt → a ≡ ok tt
>>-ok-left (ok u) b h = refl
>>-ok-left (err e) b h = cc

>>-ok-right : (a b : Result Invalid (Unit {0})) → (a >> b) ≡ ok tt → b ≡ ok tt
>>-ok-right (ok u) b h = h
>>-ok-right (err e) b h = cc

-- If `validate` passes, then a terminal has a password of at least 16 characters, an admin API has a
-- token, each descriptor of a control plane is an object whose plugin has the text `deploy_admin`
-- somewhere in it, required durability has the S3 backend,
-- the S3 backend has a signing key of at least 32 characters, a required database has its address,
-- and the bounds of the pool are in order.
pub validate-IsSafe : (s : Settings) → validate s ≡ ok tt → IsSafe s
unfolding validate check_access check_infrastructure
validate-IsSafe s h =
    let a = >>-ok-left (check_access s) (check_infrastructure s) h in
    let b = >>-ok-right (check_access s) (check_infrastructure s) h in
    record {
      terminal_guarded = ground (arith, a);
      admin_guarded = ground (arith, a);
      isolated = λ on. all_admin-NamesAdmin s.descriptors (ground (arith, a, on));
      durable = ground (arith, b);
      signed = ground (arith, b);
      database_given = ground (arith, b);
      pool_ordered = ground (arith, b);
    }

-- If a request passes the guard of the admin API, then the API is on, the request bears the token of
-- the settings, and that token is not empty.
pub require_admin_token-allowed :
    (s : Settings) (authorization : Text)
    → require_admin_token s authorization ≡ allowed
    → (s.admin_api_enabled ≡ true)
      × ((partition authorization).1 ≡ s.admin_token)
      × (is_set s.admin_token ≡ true)
unfolding require_admin_token secure_equal
require_admin_token-allowed s authorization h =
    (ground (arith, h), ground (arith, h), ground (arith, h))
