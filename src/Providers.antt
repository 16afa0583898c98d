-- ===== src/Providers.antt =====
-- src/registry.rs, and the route `providers` of src/oauth.rs: the adapters of the providers that a deployment is configured for, and what the
-- API says of each provider. The adapters and their constructors stand in evgl-providers.
pub mod Deployed
pub mod Reported
use evgl_api.Base.{
  ℕ, Bool, true, false, String, Option, none, some, List, [], ◌∷◌, find, filter, not, map,
}
use evgl_api.Rust.{Result, ok, ◌>>=◌}
use evgl_api.Domain.{
  ProviderKind, eventbrite, meetup, meta_facebook_page, craigslist, generic_webhook, same_provider,
}
use evgl_api.Config.{Config, OAuthProviderConfig}

pub data DeliveryMode : Type 0 where
  native_event distribution_post manual_handoff signed_webhook : DeliveryMode

pub record ProviderCapabilities : Type 0 where
  pub provider : ProviderKind
  pub delivery_mode : DeliveryMode
  pub oauth : Bool
  pub create : Bool
  pub update : Bool
  pub delete : Bool
  pub publish : Bool
  pub webhooks : Bool
  pub requires_manual_step : Bool
  pub notes : List String

pub record OAuthClient (Url : Type 0) : Type 0 where
  pub client_id : String
  pub client_secret : String
  pub redirect_uri : Url

-- The adapters, their constructors, and `ProviderKind::ALL`.
pub record Adapters (Url : Type 0) : Type 1 where
  pub Adapter : Type 0
  pub capabilities : Adapter → ProviderCapabilities
  pub craigslist_adapter : Adapter
  pub webhook_adapter : Adapter
  pub eventbrite_adapter : OAuthClient Url → Result Adapter String
  pub meetup_adapter : OAuthClient Url → Result Adapter String
  pub meta_adapter : OAuthClient Url → String → Adapter
  pub all_providers : List ProviderKind

-- A `HashMap` by its entries.
abbrev pub ProviderRegistry : Type 0 → Type 0
ProviderRegistry Adapter = List (ProviderKind × Adapter)

-- `HashMap::insert`
abbrev pub insert :
    {Adapter : Type 0}
    → ProviderKind
    → Adapter
    → ProviderRegistry Adapter
    → ProviderRegistry Adapter
insert provider adapter registry =
    (provider, adapter) ∷ filter (λ e. not (same_provider e.0 provider)) registry

-- An adapter that needs the OAuth client of a deployment.
abbrev pub insert_if :
    {Adapter A : Type 0}
    → ProviderKind
    → (A → Result Adapter String)
    → Option A
    → ProviderRegistry Adapter
    → Result (ProviderRegistry Adapter) String
insert_if provider make none registry = ok registry
insert_if provider make (some a) registry = do
  adapter ← make a
  ok (insert provider adapter registry)

module _ {Adapter : Type 0} where
  abbrev adapter_of : Option (ProviderKind × Adapter) → Option Adapter
  adapter_of none = none
  adapter_of (some e) = some e.1

  unfoldable pub get : ProviderRegistry Adapter → ProviderKind → Option Adapter
  get registry provider = adapter_of (find (λ e. same_provider e.0 provider) registry)

abbrev pub oauth : {Url : Type 0} → OAuthProviderConfig Url → OAuthClient Url
oauth config = record {
  client_id = config.client_id;
  client_secret = config.client_secret;
  redirect_uri = config.redirect_uri;
}

unfoldable pub static_capability : ProviderKind → ProviderCapabilities
static_capability eventbrite = record {
  provider = eventbrite;
  delivery_mode = native_event;
  oauth = true;
  create = true;
  update = false;
  delete = false;
  publish = true;
  webhooks = true;
  requires_manual_step = false;
  notes = "OAuth credentials are not configured on this deployment." ∷ [];
}
static_capability meetup = record {
  provider = meetup;
  delivery_mode = native_event;
  oauth = true;
  create = true;
  update = false;
  delete = false;
  publish = true;
  webhooks = false;
  requires_manual_step = false;
  notes = "OAuth credentials are not configured on this deployment." ∷ [];
}
static_capability meta_facebook_page = record {
  provider = meta_facebook_page;
  delivery_mode = distribution_post;
  oauth = true;
  create = true;
  update = false;
  delete = false;
  publish = true;
  webhooks = true;
  requires_manual_step = false;
  notes = "Meta OAuth credentials are not configured on this deployment." ∷ [];
}
static_capability craigslist = record {
  provider = craigslist;
  delivery_mode = manual_handoff;
  oauth = false;
  create = false;
  update = false;
  delete = false;
  publish = false;
  webhooks = false;
  requires_manual_step = true;
  notes = "General automated posting is intentionally disabled." ∷ [];
}
static_capability generic_webhook = record {
  provider = generic_webhook;
  delivery_mode = signed_webhook;
  oauth = false;
  create = true;
  update = false;
  delete = false;
  publish = true;
  webhooks = false;
  requires_manual_step = false;
  notes = "Requires an HTTPS endpoint and HMAC secret." ∷ [];
}

module _ {Url : Type 0} (A : Adapters Url) where
  unfoldable pub build : Config Url → Result (ProviderRegistry A.Adapter) String
  build config = do
    let builtin =
        insert generic_webhook A.webhook_adapter (insert craigslist A.craigslist_adapter [])
    with_eventbrite ←
        insert_if eventbrite (λ p. A.eventbrite_adapter (oauth p)) config.eventbrite builtin
    with_meetup ← insert_if meetup (λ p. A.meetup_adapter (oauth p)) config.meetup with_eventbrite
    insert_if meta_facebook_page (λ p. ok (A.meta_adapter (oauth p) config.meta_graph_version))
        config.meta with_meetup

  abbrev pub capability_of : ProviderKind → Option A.Adapter → ProviderCapabilities × Bool
  capability_of provider (some adapter) = (A.capabilities adapter, true)
  capability_of provider none = (static_capability provider, false)

  unfoldable pub capabilities : ProviderRegistry A.Adapter → List (ProviderCapabilities × Bool)
  unfolding get static_capability
  capabilities registry = map (λ p. capability_of p (get registry p)) A.all_providers

pub record ProviderView : Type 0 where
  pub capabilities : ProviderCapabilities
  pub configured : Bool

-- The route `providers` of src/oauth.rs.
unfoldable pub providers :
    {Url : Type 0} (A : Adapters Url) → ProviderRegistry A.Adapter → List ProviderView
unfolding capabilities
providers A registry =
    map (λ c. record { capabilities = c.0; configured = c.1 }) (capabilities A registry)
