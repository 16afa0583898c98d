-- ===== src/Examples/Setup.antt =====
-- A small stand-in for the crates: JSON is null or the document of an event without metadata.
use evgl_api.Base.{ℕ, true, String, Option, List, [], ◌∷◌, ◌≡◌, refl, arith}
use evgl_api.Rust.{Result, ok, err}
use evgl_api.Domain.{
  Types, EventDraft, ProviderKind, eventbrite, meetup, meta_facebook_page, craigslist,
  generic_webhook, PublicationStatus, ProviderError, network, remote, other, Crates,
}
use evgl_api.Database.{Database}
use evgl_api.Store.Events.RoundTrip.{ReadsBack}

pub record Fields : Type 0 where
  pub id : ℕ
  pub owner_id : ℕ
  pub title : String
  pub summary : String
  pub description_html : String
  pub starts_at : ℕ
  pub ends_at : ℕ
  pub timezone : String
  pub canonical_url : ℕ
  pub online_url : Option ℕ
  pub venue : Option ℕ
  pub tags : List String

pub data Json : Type 0 where
  null : Json
  document : Fields → Json

abbrev pub types : Types
types = record {
  Json = Json;
  Url = ℕ;
  Venue = ℕ;
  TokenSet = String;
  Publication = PublicationStatus;
}

abbrev pub fields : EventDraft types → Fields
fields e = record {
  id = e.id;
  owner_id = e.owner_id;
  title = e.title;
  summary = e.summary;
  description_html = e.description_html;
  starts_at = e.starts_at;
  ends_at = e.ends_at;
  timezone = e.timezone;
  canonical_url = e.canonical_url;
  online_url = e.online_url;
  venue = e.venue;
  tags = e.tags;
}

abbrev pub draft : Fields → EventDraft types
draft f = record {
  id = f.id;
  owner_id = f.owner_id;
  title = f.title;
  summary = f.summary;
  description_html = f.description_html;
  starts_at = f.starts_at;
  ends_at = f.ends_at;
  timezone = f.timezone;
  canonical_url = f.canonical_url;
  online_url = f.online_url;
  venue = f.venue;
  tags = f.tags;
  metadata = [];
}

abbrev print_with : List (String × Json) → Fields → Result Json String
print_with [] f = ok (document f)
print_with (_ ∷ _) f = err "metadata"

abbrev parse : Json → Result (EventDraft types) String
parse null = err "null"
parse (document f) = ok (draft f)

abbrev pub name_of : ProviderKind → String
name_of eventbrite = "eventbrite"
name_of meetup = "meetup"
name_of meta_facebook_page = "meta_facebook_page"
name_of craigslist = "craigslist"
name_of generic_webhook = "generic_webhook"

abbrev error_text : ProviderError → String
error_text (network m) = m
error_text (remote _ m) = m
error_text (other m) = m

abbrev pub crates : Crates
crates = record {
  types = types;
  as_str = name_of;
  from_str = λ s. ok meetup;
  show_provider = name_of;
  show_uuid = λ n. "id";
  show_provider_error = error_text;
  validate_event = λ e. ok tt;
  event_to_value = λ e. print_with e.metadata (fields e);
  event_from_value = parse;
  publication_to_value = λ p. ok null;
  publication_status = λ p. p;
  collates_le = λ a b. true;
}

print-parse :
    (m : List (String × Json)) (e : EventDraft types) (v : Json)
    → e.metadata ≡ m
    → print_with m (fields e) ≡ ok v
    → parse v ≡ ok e
print-parse [] e v empty h = ground arith
print-parse (x ∷ m) e v empty h = cc

pub crates-ReadsBack : ReadsBack crates
crates-ReadsBack e v h = print-parse e.metadata e v refl h

abbrev pub no_rows : Database Json
no_rows = record {
  oauth_sessions = [];
  provider_connections = [];
  events = [];
  cross_post_jobs = [];
  cross_post_targets = [];
}
