-- ===== src/Gateway/Access.antt =====
-- apps/api-gateway/src/common/api-key.guard.ts and apps/api-gateway/src/dto/safe-id-param.dto.ts.
use bumpa_achievement_system.Common.{
  ℕ, String, Bool, false, not, ◌&&◌, ◌||◌, Option, none, some, ◌==◌, leb, nat_eq, all, codes,
}

-- getStringEnv(EnvKey.AdminApiKey, '')
abbrev pub or_empty : Option String → String
or_empty none = ""
or_empty (some s) = s

abbrev pub provides : String → Option String → Bool
provides expected none = false
provides expected (some key) = not (key == "") && key == expected

-- canActivate: false where it throws the UnauthorizedException.
unfoldable pub can_activate : Option String → Option String → Bool
can_activate admin_api_key provided =
    not (or_empty admin_api_key == "") && provides (or_empty admin_api_key) provided

-- [a-zA-Z0-9_-]
abbrev pub is_safe_code : ℕ → Bool
is_safe_code c =
    (leb b'a' c && leb c b'z')
    || ((leb b'A' c && leb c b'Z')
        || ((leb b'0' c && leb c b'9') || (nat_eq c b'_' || nat_eq c b'-')))

-- /^[a-zA-Z0-9_-]+$/
abbrev pub is_safe_id : String → Bool
is_safe_id id = not (id == "") && all is_safe_code (codes id)
