-- ===== src/Config.antt =====
-- src/config.rs: the configuration that is read from the environment. An error is what its message
-- says: the context that the code adds.
pub mod Groups
use evgl_api.Base.{String, Option, none, some, [], ◌∷◌, not, if◌then◌else◌}
use evgl_api.Rust.{Result, ok, err, ok_or, map_err, format, ◌>>=◌}
use evgl_api.Admission.Wire.{is_blank}

-- `std::env::var`, where it finds a text, and `str::parse` of one to a Url.
pub record Environment (Url : Type 0) : Type 0 where
  pub var : String → Option String
  pub parse_url : String → Result Url String

module _ (Url : Type 0) where
  pub record OAuthProviderConfig : Type 0 where
    pub client_id : String
    pub client_secret : String
    pub redirect_uri : Url

  pub record Config : Type 0 where
    pub bind : String
    pub public_url : Url
    pub web_url : Url
    pub database_url : String
    pub jwt_secret : String
    pub token_vault_key : String
    pub eventbrite : Option OAuthProviderConfig
    pub meetup : Option OAuthProviderConfig
    pub meta : Option OAuthProviderConfig
    pub meta_graph_version : String

-- `filter(|value| !value.trim().is_empty())`
abbrev pub non_blank : Option String → Option String
non_blank none = none
non_blank (some value) = if is_blank value then none else some value

module _ {Url : Type 0} (E : Environment Url) where
  unfoldable pub required : String → Result String String
  required key = ok_or (E.var key) (format ("missing " ∷ key ∷ []))

  unfoldable pub env_or : String → String → String
  env_or key default = elim (E.var key) [ some value ↦ value | none ↦ default ]

  -- `parse().context(..)`
  abbrev pub parse : String → String → Result Url String
  parse context value = map_err (λ _. context) (E.parse_url value)

  -- The match on the three variables of a provider.
  unfoldable pub oauth_of :
      String
      → Option String
      → Option String
      → Option String
      → Result (Option (OAuthProviderConfig Url)) String
  oauth_of prefix none none none = ok none
  oauth_of prefix (some client_id) (some client_secret) (some redirect) = do
    redirect_uri ← parse (format (prefix ∷ "_REDIRECT_URI" ∷ [])) redirect
    ok (
        some (record {
          client_id = client_id;
          client_secret = client_secret;
          redirect_uri = redirect_uri;
        }))
  oauth_of prefix _ _ _ = err (
      format (
        prefix ∷ "_CLIENT_ID, " ∷ prefix ∷ "_CLIENT_SECRET and " ∷ prefix
        ∷ "_REDIRECT_URI must be set together" ∷ []))

  unfoldable pub oauth : String → Result (Option (OAuthProviderConfig Url)) String
  unfolding oauth_of
  oauth prefix =
      oauth_of prefix (non_blank (E.var (format (prefix ∷ "_CLIENT_ID" ∷ []))))
        (non_blank (E.var (format (prefix ∷ "_CLIENT_SECRET" ∷ []))))
        (non_blank (E.var (format (prefix ∷ "_REDIRECT_URI" ∷ []))))

  unfoldable pub from_env : Result (Config Url) String
  unfolding required env_or oauth
  from_env = do
    public ← required "APP_PUBLIC_URL"
    public_url ← parse "APP_PUBLIC_URL" public
    web ← required "APP_WEB_URL"
    web_url ← parse "APP_WEB_URL" web
    database_url ← required "DATABASE_URL"
    jwt_secret ← required "JWT_SECRET"
    token_vault_key ← required "TOKEN_VAULT_KEY"
    eventbrite ← oauth "EVENTBRITE"
    meetup ← oauth "MEETUP"
    meta ← oauth "META"
    ok (record {
      bind = env_or "APP_BIND" "0.0.0.0:8080";
      public_url = public_url;
      web_url = web_url;
      database_url = database_url;
      jwt_secret = jwt_secret;
      token_vault_key = token_vault_key;
      eventbrite = eventbrite;
      meetup = meetup;
      meta = meta;
      meta_graph_version = env_or "META_GRAPH_VERSION" "v25.0";
    })
