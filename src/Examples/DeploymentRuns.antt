-- ===== src/Examples/DeploymentRuns.antt =====
-- A deployment with Meetup configured, and a request with a bearer token.
use evgl_api.Base.{
  ◌≡◌, refl, ◌↔◌, String, Option, none, some, List, [], ◌∷◌, all, map, str_eq, if◌then◌else◌,
}
use evgl_api.Rust.{Result, ok, err}
use evgl_api.Domain.{
  ProviderKind, eventbrite, meetup, meta_facebook_page, craigslist, generic_webhook,
}
use evgl_api.Admission.Wire.{is_blank}
use evgl_api.Config.{Environment, Config, from_env, required, env_or, oauth, oauth_of}
use evgl_api.Config.Groups.{is_set, variables}
use evgl_api.Providers.{Adapters, ProviderRegistry, static_capability, build, providers}
use evgl_api.Providers.Reported.{NamesItself, report, providers_lem}
use evgl_api.Auth.{Verifier, from_request_parts}
use evgl_api.Auth.Bearer.{IsBearer, from_request_parts_lem}

abbrev lookup : List (String × String) → String → Option String
lookup [] name = none
lookup (e ∷ es) name = let rest = lookup es name in if str_eq e.0 name then some e.1 else rest

abbrev environment : Environment String
environment = record {
  var = lookup (
      ("APP_PUBLIC_URL", "https://api.example.com")
      ∷ ("APP_WEB_URL", "https://example.com")
      ∷ ("DATABASE_URL", "postgres")
      ∷ ("JWT_SECRET", "secret")
      ∷ ("TOKEN_VAULT_KEY", "key")
      ∷ ("EVENTBRITE_CLIENT_ID", " ")
      ∷ ("MEETUP_CLIENT_ID", "id")
      ∷ ("MEETUP_CLIENT_SECRET", "secret")
      ∷ ("MEETUP_REDIRECT_URI", "https://api.example.com/meetup")
      ∷ []);
  parse_url = λ s. ok s;
}

abbrev config : Config String
config = record {
  bind = "0.0.0.0:8080";
  public_url = "https://api.example.com";
  web_url = "https://example.com";
  database_url = "postgres";
  jwt_secret = "secret";
  token_vault_key = "key";
  eventbrite = none;
  meetup = some (record {
    client_id = "id";
    client_secret = "secret";
    redirect_uri = "https://api.example.com/meetup";
  });
  meta = none;
  meta_graph_version = "v25.0";
}

read : from_env environment ≡ ok config
unfolding from_env required env_or oauth oauth_of is_blank
read = refl

-- An adapter by its provider.
abbrev adapters : Adapters String
adapters = record {
  Adapter = ProviderKind;
  capabilities = static_capability;
  craigslist_adapter = craigslist;
  webhook_adapter = generic_webhook;
  eventbrite_adapter = λ c. ok eventbrite;
  meetup_adapter = λ c. ok meetup;
  meta_adapter = λ c version. meta_facebook_page;
  all_providers = eventbrite ∷ meetup ∷ meta_facebook_page ∷ craigslist ∷ generic_webhook ∷ [];
}

abbrev registry : ProviderRegistry ProviderKind
registry = (meetup, meetup) ∷ (generic_webhook, generic_webhook) ∷ (craigslist, craigslist) ∷ []

built : build adapters config ≡ ok registry
unfolding build
built = refl

named_eventbrite :
    (p : ProviderKind)
    → ◌≡◌ {A = Result ProviderKind String} (ok eventbrite) (ok p)
    → (static_capability p).provider ≡ eventbrite
unfolding static_capability
named_eventbrite eventbrite h = refl
named_eventbrite meetup h = cc
named_eventbrite meta_facebook_page h = cc
named_eventbrite craigslist h = cc
named_eventbrite generic_webhook h = cc

named_meetup :
    (p : ProviderKind)
    → ◌≡◌ {A = Result ProviderKind String} (ok meetup) (ok p)
    → (static_capability p).provider ≡ meetup
unfolding static_capability
named_meetup eventbrite h = cc
named_meetup meetup h = refl
named_meetup meta_facebook_page h = cc
named_meetup craigslist h = cc
named_meetup generic_webhook h = cc

adapters-NamesItself : NamesItself adapters
unfolding static_capability
adapters-NamesItself = record {
  craigslist_named = refl;
  webhook_named = refl;
  eventbrite_named = λ c. named_eventbrite;
  meetup_named = λ c. named_meetup;
  meta_named = λ c version. refl;
}

providers_lem_example :
    map (report adapters) (providers adapters registry)
    ≡ map (λ p. (p, all (is_set environment) (variables p))) adapters.all_providers
providers_lem_example =
    providers_lem environment adapters config registry adapters-NamesItself read built

abbrev verifier : Verifier
verifier = record {
  HeaderValue = String;
  to_str = λ s. some s;
  decode = λ secret token.
      if str_eq token "token" then ok (record { sub = "7"; exp = 90 }) else err "signature";
  parse_uuid = λ s. if str_eq s "7" then ok 7 else err "uuid";
}

from_request_parts_lem_example :
    (from_request_parts verifier "secret" (lookup (("authorization", "Bearer token") ∷ []))
      ≡ ok (record { id = 7 }))
    ↔ IsBearer verifier "secret"
        (lookup (("authorization", "Bearer token") ∷ []))
        (record { id = 7 })
from_request_parts_lem_example =
    from_request_parts_lem verifier "secret" (lookup (("authorization", "Bearer token") ∷ []))
      (record { id = 7 })
