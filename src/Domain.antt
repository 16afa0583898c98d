-- ===== src/Domain.antt =====
-- The types of the crates evgl-domain, evgl-provider-sdk, evgl-token-vault, serde_json and url as
-- far as the code names them, and their functions as parameters. A Uuid is its 128-bit number and a
-- point in time the number of ticks since the least `DateTime<Utc>`.
use evgl_api.Base.{ℕ, Bool, true, false, String, Option, List}
use evgl_api.Rust.{Result}

pub data ProviderKind : Type 0 where
  eventbrite meetup meta_facebook_page craigslist generic_webhook : ProviderKind

-- `==` of two providers
abbrev pub same_provider : ProviderKind → ProviderKind → Bool
same_provider eventbrite eventbrite = true
same_provider meetup meetup = true
same_provider meta_facebook_page meta_facebook_page = true
same_provider craigslist craigslist = true
same_provider generic_webhook generic_webhook = true
same_provider _ _ = false

pub data PublicationStatus : Type 0 where
  queued running published action_required retrying failed : PublicationStatus

-- Types that the code only passes on.
pub record Types : Type 1 where
  pub Json : Type 0
  pub Url : Type 0
  pub Venue : Type 0
  pub TokenSet : Type 0
  pub Publication : Type 0

pub record EventDraft (T : Types) : Type 0 where
  pub id : ℕ
  pub owner_id : ℕ
  pub title : String
  pub summary : String
  pub description_html : String
  pub starts_at : ℕ
  pub ends_at : ℕ
  pub timezone : String
  pub canonical_url : T.Url
  pub online_url : Option T.Url
  pub venue : Option T.Venue
  pub tags : List String
  pub metadata : List (String × T.Json)

pub record PublishTarget (Json : Type 0) : Type 0 where
  pub connection_id : ℕ
  pub provider : ProviderKind
  pub options : Json

pub record PublishContext (Json : Type 0) : Type 0 where
  pub account_key : String
  pub account_metadata : Json
  pub target_options : Json

pub record JobUpdate (Publication : Type 0) : Type 0 where
  pub job_id : ℕ
  pub event_id : ℕ
  pub provider : Option ProviderKind
  pub status : PublicationStatus
  pub attempt : ℕ
  pub message : String
  pub occurred_at : ℕ
  pub publication : Option Publication

-- The variants that `is_retryable` names; `other` is any other one.
pub data ProviderError : Type 0 where
  network : String → ProviderError
  remote : ℕ → String → ProviderError
  other : String → ProviderError

-- The functions of those crates that the code calls.
pub record Crates : Type 1 where
  pub types : Types
  pub open types use *
  pub as_str : ProviderKind → String
  pub from_str : String → Result ProviderKind String
  pub show_provider : ProviderKind → String
  pub show_uuid : ℕ → String
  pub show_provider_error : ProviderError → String
  pub validate_event : EventDraft types → Result (Unit {0}) String
  pub event_to_value : EventDraft types → Result types.Json String
  pub event_from_value : types.Json → Result (EventDraft types) String
  pub publication_to_value : types.Publication → Result types.Json String
  pub publication_status : types.Publication → PublicationStatus
  -- the order of text columns under the database's collation
  pub collates_le : String → String → Bool
