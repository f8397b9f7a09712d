-- ===== src/Client/Config.antt =====
-- The constructor of the client: the resolved configuration and the headers of its requests.
use phala_cloud.Common.{
  ℕ, Text, lit, Bool, false, not, ◌&&◌, Option, none, some, List, [], ◌∷◌, ◌++◌, if◌then◌else◌,
  is_empty, text_eq, trim, any, ◌≡◌,
}
use phala_cloud.Common.JsMap

-- The process environment that the constructor reads.
pub record Environment : Type 0 where
  pub api_key : Option Text
  pub oidc_token : Option Text
  pub workspace : Option Text
  pub api_prefix : Option Text

-- ClientConfig; the headers stand under their lower-case names.
pub record ClientConfig : Type 0 where
  pub api_key : Option Text
  pub bearer_token : Option Text
  pub workspace : Option Text
  pub base_url : Option Text
  pub version : Option Text
  pub timeout : ℕ
  pub use_cookie_auth : Bool
  pub headers : List (Text × Text)

-- SUPPORTED_API_VERSIONS
abbrev pub supported_api_versions : List Text
supported_api_versions =
    lit "2025-10-28" ∷ lit "2026-01-21" ∷ lit "2026-05-22" ∷ lit "2026-06-23" ∷ []

-- DEFAULT_API_VERSION
abbrev pub default_api_version : Text
default_api_version = lit "2026-06-23"

abbrev pub is_present : Option Text → Bool
is_present none = false
is_present (some s) = not (is_empty s)

-- a || b
unfoldable pub or_other : Option Text → Option Text → Option Text
or_other a b = if is_present a then a else b

unfoldable pub or_default : Option Text → Text → Text
or_default none t = t
or_default (some s) t = if is_empty s then t else s

is_supported : Text → Bool
unfolding text_eq
is_supported v = any (text_eq v) supported_api_versions

unfoldable pub version_of : Option Text → Text
unfolding is_supported
version_of none = default_api_version
version_of (some v) = if is_supported v then v else default_api_version

-- The configuration after the constructor.
unfoldable pub resolve_config : Environment → ClientConfig → ClientConfig
resolve_config env c = record c {
  api_key = or_other c.api_key env.api_key;
  bearer_token = or_other c.bearer_token env.oidc_token;
  workspace = or_other c.workspace env.workspace;
  base_url =
      some (
        or_default (or_other c.base_url env.api_prefix) (lit "https://cloud-api.phala.com/api/v1"));
  version = some (version_of c.version);
}

pub set_all : List (Text × Text) → List (Text × Text) → List (Text × Text)
unfolding JsMap.set
set_all [] h = h
set_all ((k, v) ∷ hs) h = set_all hs (JsMap.set k v h)

pub set_credential : Bool → Option Text → Option Text → List (Text × Text) → List (Text × Text)
unfolding JsMap.set
set_credential cookies key bearer h =
    if not cookies && is_present key
    then elim key [ some k ↦ JsMap.set (lit "x-api-key") k h | none ↦ h ]
    else if not cookies && is_present bearer
    then elim bearer [ some b ↦ JsMap.set (lit "authorization") (lit "Bearer " ++ b) h | none ↦ h ]
    else h

set_workspace : Option Text → List (Text × Text) → List (Text × Text)
unfolding JsMap.set trim
set_workspace none h = h
set_workspace (some w) h =
    if is_empty (trim w) then h else JsMap.set (lit "x-phala-workspace") (trim w) h

pub version_text : Option Text → Text
version_text none = []
version_text (some v) = v

-- The headers that the client gives to ofetch for all requests, from the resolved configuration.
unfoldable pub default_headers : ClientConfig → List (Text × Text)
unfolding set_all set_credential set_workspace version_text JsMap.set
default_headers c = set_workspace c.workspace (
    set_credential c.use_cookie_auth c.api_key c.bearer_token (
      JsMap.set (lit "x-phala-version") (version_text c.version)
        (set_all c.headers ((lit "content-type", lit "application/json") ∷ []))))

-- withVersion: a new client from the resolved configuration
unfoldable pub with_version : Environment → Text → ClientConfig → ClientConfig
unfolding resolve_config
with_version env v c = resolve_config env (record c { version = some v })

pub bearer_header : Option Text → Option Text
bearer_header none = none
bearer_header (some b) = some (lit "Bearer " ++ b)

-- The headers that the caller gives, over the default content type.
abbrev pub given_headers : ClientConfig → List (Text × Text)
given_headers c = set_all c.headers ((lit "content-type", lit "application/json") ∷ [])

-- The credential and the version of a request. Cookies, or no key and no token: the headers given stay.
pub record IsAuthorized (c : ClientConfig) (h : List (Text × Text)) : Type 0 where
  pub key : JsMap.get (lit "x-api-key") h ≡ (
      if not c.use_cookie_auth && is_present c.api_key
      then c.api_key
      else JsMap.get (lit "x-api-key") (given_headers c))
  pub token : JsMap.get (lit "authorization") h ≡ (
      if not c.use_cookie_auth && not (is_present c.api_key) && is_present c.bearer_token
      then bearer_header c.bearer_token
      else JsMap.get (lit "authorization") (given_headers c))
  pub versioned : JsMap.get (lit "x-phala-version") h ≡ some (version_text c.version)

abbrev versioned_headers : ClientConfig → List (Text × Text)
versioned_headers c = JsMap.set (lit "x-phala-version") (version_text c.version) (given_headers c)
