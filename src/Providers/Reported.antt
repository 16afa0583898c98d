-- ===== src/Providers/Reported.antt =====
-- What the route `providers` of src/oauth.rs reports of a deployment.
use evgl_api.Base.{
  Bool, true, false, not, ◌≡◌, refl, sym, ◌∙◌, ap, String, Option, none, some, List, [], ◌∷◌, All,
  all, find, inl, inr, Option-cases, map, subst, In, some-injective,
}
use evgl_api.Base.Tables.{All-filter, All-mono}
use evgl_api.Base.Search.{find-In}
use evgl_api.Rust.{Result, ok, >>=-ok_elim, ok-injective}
use evgl_api.Domain.{
  ProviderKind, eventbrite, meetup, meta_facebook_page, craigslist, generic_webhook, same_provider,
}
use evgl_api.Config.{Environment, Config, OAuthProviderConfig, from_env}
use evgl_api.Config.Groups.{is_some, variables, is_set}
use evgl_api.Providers.{
  Adapters, ProviderRegistry, ProviderCapabilities, ProviderView, OAuthClient, insert, insert_if,
  get, oauth, build, static_capability, capability_of, capabilities, providers,
}
use evgl_api.Providers.Deployed.{same_provider-eq, deployed}

All-at : {B : Type 0} (P : B → Type 0) (xs : List B) (x : B) → In x xs → All P xs → P x
All-at P [] x m h = absurd m
All-at P (y ∷ ys) x (inl e) h = subst P (sym e) h.0
All-at P (y ∷ ys) x (inr m) h = All-at P ys x m h.1

module _ {Url : Type 0} (A : Adapters Url) where
  -- evgl-providers: each adapter names its own provider among its capabilities.
  pub record NamesItself : Type 0 where
    pub craigslist_named : (A.capabilities A.craigslist_adapter).provider ≡ craigslist
    pub webhook_named : (A.capabilities A.webhook_adapter).provider ≡ generic_webhook
    pub eventbrite_named :
        (c : OAuthClient Url) (a : A.Adapter)
        → A.eventbrite_adapter c ≡ ok a
        → (A.capabilities a).provider ≡ eventbrite
    pub meetup_named :
        (c : OAuthClient Url) (a : A.Adapter)
        → A.meetup_adapter c ≡ ok a
        → (A.capabilities a).provider ≡ meetup
    pub meta_named :
        (c : OAuthClient Url) (version : String)
        → (A.capabilities (A.meta_adapter c version)).provider ≡ meta_facebook_page

  abbrev Named : ProviderKind × A.Adapter → Type 0
  Named e = (A.capabilities e.1).provider ≡ e.0

  insert-Named :
      (p : ProviderKind) (a : A.Adapter) (r : ProviderRegistry A.Adapter)
      → (A.capabilities a).provider ≡ p
      → All Named r
      → All Named (insert p a r)
  insert-Named p a r named h = (
    named,
    All-mono _ Named _ (λ e k. k.0) (All-filter Named (λ e. not (same_provider e.0 p)) r h),
  )

  insert_if-Named :
      {B : Type 0} (p : ProviderKind) (make : B → Result A.Adapter String) (o : Option B)
      (r r' : ProviderRegistry A.Adapter)
      → ((b : B) (a : A.Adapter) → make b ≡ ok a → (A.capabilities a).provider ≡ p)
      → insert_if p make o r ≡ ok r'
      → All Named r
      → All Named r'
  insert_if-Named p make none r r' named e h = subst (All Named) (ok-injective e) h
  insert_if-Named p make (some b) r r' named e h =
      >>=-ok_elim (make b) (λ a. ok (insert p a r)) e
        λ a made e. subst (All Named) (ok-injective e) (insert-Named p a r (named b a made) h)

  build-Named :
      (config : Config Url) (registry : ProviderRegistry A.Adapter)
      → NamesItself
      → build A config ≡ ok registry
      → All Named registry
  unfolding build
  build-Named config registry n h =
      let builtin =
        insert generic_webhook A.webhook_adapter (insert craigslist A.craigslist_adapter []) in
      let named_builtin =
        insert-Named generic_webhook A.webhook_adapter (insert craigslist A.craigslist_adapter [])
          n.webhook_named (insert-Named craigslist A.craigslist_adapter [] n.craigslist_named tt) in
      let eventbrite_of = λ (p : OAuthProviderConfig Url). A.eventbrite_adapter (oauth p) in
      let meetup_of = λ (p : OAuthProviderConfig Url). A.meetup_adapter (oauth p) in
      >>=-ok_elim (insert_if eventbrite eventbrite_of config.eventbrite builtin) _ h λ r₁ h₁ h.
        >>=-ok_elim (insert_if meetup meetup_of config.meetup r₁) _ h λ r₂ h₂ h₃.
          insert_if-Named meta_facebook_page
            (λ p. ok (A.meta_adapter (oauth p) config.meta_graph_version)) config.meta r₂ registry
            (λ p a made.
              ap (λ a. (A.capabilities a).provider) (sym (ok-injective made))
              ∙ n.meta_named (oauth p) config.meta_graph_version)
            h₃
            (insert_if-Named meetup meetup_of config.meetup r₁ r₂ (λ p. n.meetup_named (oauth p)) h₂
              (insert_if-Named eventbrite eventbrite_of config.eventbrite builtin r₁
                (λ p. n.eventbrite_named (oauth p)) h₁ named_builtin))

  static_capability-provider : (p : ProviderKind) → (static_capability p).provider ≡ p
  unfolding static_capability
  static_capability-provider eventbrite = refl
  static_capability-provider meetup = refl
  static_capability-provider meta_facebook_page = refl
  static_capability-provider craigslist = refl
  static_capability-provider generic_webhook = refl

  abbrev pub report : ProviderView → ProviderKind × Bool
  report v = (v.capabilities.provider, v.configured)

  get-Named :
      (registry : ProviderRegistry A.Adapter) (p : ProviderKind) (a : A.Adapter)
      → All Named registry
      → get registry p ≡ some a
      → (A.capabilities a).provider ≡ p
  unfolding get
  get-Named registry p a h found =
      elim (Option-cases (find (λ (e : ProviderKind × A.Adapter). same_provider e.0 p) registry)) [
        | inl missing ↦
            let clash : ◌≡◌ {A = Option A.Adapter} none (some a) = rw missing at (found) in cc
        | inr (e, here) ↦
            let (member, same) =
              find-In (λ (e : ProviderKind × A.Adapter). same_provider e.0 p) registry e here in
            let is : e.1 ≡ a = some-injective (rw here at (found)) in
            ap (λ a. (A.capabilities a).provider) (sym is)
            ∙ All-at Named registry e member h
            ∙ same_provider-eq e.0 p same
      ]

  report_of :
      (registry : ProviderRegistry A.Adapter) (p : ProviderKind)
      → All Named registry
      → ◌≡◌ {A = ProviderKind × Bool}
          ((capability_of A p (get registry p)).0.provider, (capability_of A p (get registry p)).1)
          (p, is_some (get registry p))
  report_of registry p h = elim (Option-cases (get registry p)) [
    | inl missing ↦ rw missing (λ i. (static_capability-provider p i, false))
    | inr (a, found) ↦ rw found (λ i. (get-Named registry p a h found i, true))
  ]

  reports_of :
      (registry : ProviderRegistry A.Adapter) (ps : List ProviderKind)
      → All Named registry
      → map report (
          map
            (λ (c : ProviderCapabilities × Bool). record { capabilities = c.0; configured = c.1 })
            (map (λ p. capability_of A p (get registry p)) ps))
        ≡ map (λ p. (p, is_some (get registry p))) ps
  reports_of registry [] h = refl
  reports_of registry (p ∷ ps) h = λ i. report_of registry p h i ∷ reports_of registry ps h i

map_congr : {B D : Type 0} (f g : B → D) (xs : List B) → ((x : B) → f x ≡ g x) → map f xs ≡ map g xs
map_congr f g [] h = refl
map_congr f g (x ∷ xs) h = λ i. h x i ∷ map_congr f g xs h i

-- A deployment that starts reports each of the providers once and in their order, under its own
-- name, and as configured exactly when every variable that it needs is set to a text that is not
-- blank.
pub providers_lem :
    {Url : Type 0} (E : Environment Url) (A : Adapters Url) (config : Config Url)
    (registry : ProviderRegistry A.Adapter)
    → NamesItself A
    → from_env E ≡ ok config
    → build A config ≡ ok registry
    → map (report A) (providers A registry)
      ≡ map (λ p. (p, all (is_set E) (variables p))) A.all_providers
unfolding providers capabilities
providers_lem E A config registry named read built =
    reports_of A registry A.all_providers (build-Named A config registry named built)
    ∙ map_congr _ _ A.all_providers (λ p i. (p, (deployed E A config registry read built p).0 i))
