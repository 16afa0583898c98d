-- ===== src/Providers/Deployed.antt =====
-- Which providers a deployment has, by the variables of its environment, and what the API says of
-- each.
use evgl_api.Base.{
  Bool, true, false, not, ◌≡◌, refl, sym, ◌∙◌, ◌&&◌, ◌⊎◌, ap, String, Option, none, some, [], all,
  any, arith, inl, inr, Bool-cases, if◌then◌else◌,
}
use evgl_api.Base.Tables.{find-filter_keep}
use evgl_api.Rust.{Result, ok, >>=-ok_elim, ok-injective}
use evgl_api.Domain.{
  ProviderKind, eventbrite, meetup, meta_facebook_page, craigslist, generic_webhook, same_provider,
}
use evgl_api.Config.{Environment, Config, from_env}
use evgl_api.Config.Groups.{is_some, variables, is_set, from_env-HasGroups}
use evgl_api.Providers.{Adapters, ProviderRegistry, insert, insert_if, get, oauth, build}

pub same_provider-eq : (a b : ProviderKind) → same_provider a b ≡ true → a ≡ b
same_provider-eq a b h = ground arith

module _ {Adapter : Type 0} where
  get-insert :
      (p q : ProviderKind) (a : Adapter) (r : ProviderRegistry Adapter)
      → get (insert p a r) q ≡ (if same_provider p q then some a else get r q)
  unfolding get
  get-insert p q a r = elim (Bool-cases (same_provider p q)) [
    | inl same ↦ rw same refl
    | inr differs ↦
        rw
          (
            differs,
            find-filter_keep (λ (e : ProviderKind × Adapter). same_provider e.0 q)
                (λ (e : ProviderKind × Adapter). not (same_provider e.0 p)) r
                (λ e h. ground (arith, differs, same_provider-eq e.0 q h, same_provider-eq e.0 p)),
          )
          refl
  ]

  has : ProviderRegistry Adapter → ProviderKind → Bool
  has r q = is_some (get r q)

  has-insert_if :
      {A : Type 0} (p q : ProviderKind) (make : A → Result Adapter String) (o : Option A)
      (r r' : ProviderRegistry Adapter)
      → insert_if p make o r ≡ ok r'
      → is_some (get r' q) ≡ (if same_provider p q && is_some o then true else is_some (get r q))
  has-insert_if p q make none r r' h = elim (Bool-cases (same_provider p q)) [
    | inl same ↦ rw same (ap (λ l. is_some (get l q)) (sym (ok-injective h)))
    | inr differs ↦ rw differs (ap (λ l. is_some (get l q)) (sym (ok-injective h)))
  ]
  has-insert_if p q make (some x) r r' h =
      >>=-ok_elim (make x) (λ a. ok (insert p a r)) h
        λ a _ made.
          ap (λ l. is_some (get l q)) (sym (ok-injective made))
          ∙ ap is_some (get-insert p q a r)
          ∙ elim (Bool-cases (same_provider p q)) [
            | inl same ↦ rw same refl
            | inr differs ↦ rw differs refl
          ]

module _ {Url : Type 0} (E : Environment Url) (A : Adapters Url) where
  -- The providers that are registered for a configuration.
  configured : Config Url → ProviderKind → Bool
  configured config eventbrite = is_some config.eventbrite
  configured config meetup = is_some config.meetup
  configured config meta_facebook_page = is_some config.meta
  configured config craigslist = true
  configured config generic_webhook = true

  if_true : (b : Bool) → (if b then true else false) ≡ b
  if_true true = refl
  if_true false = refl

  abbrev builtin : ProviderRegistry A.Adapter
  builtin = insert generic_webhook A.webhook_adapter (insert craigslist A.craigslist_adapter [])

  registered :
      (config : Config Url) (p : ProviderKind)
      → (if same_provider meta_facebook_page p && is_some config.meta
          then true
          else if same_provider meetup p && is_some config.meetup
          then true
          else if same_provider eventbrite p && is_some config.eventbrite
          then true
          else is_some (get builtin p))
        ≡ configured config p
  unfolding get configured
  registered config eventbrite = if_true (is_some config.eventbrite)
  registered config meetup = if_true (is_some config.meetup)
  registered config meta_facebook_page = if_true (is_some config.meta)
  registered config craigslist = refl
  registered config generic_webhook = refl

  build-configured :
      (config : Config Url) (registry : ProviderRegistry A.Adapter) (p : ProviderKind)
      → build A config ≡ ok registry
      → is_some (get registry p) ≡ configured config p
  unfolding build configured
  build-configured config registry p h =
      >>=-ok_elim
        (insert_if eventbrite (λ p. A.eventbrite_adapter (oauth p)) config.eventbrite builtin) _ h
        λ r₁ h₁ h.
          >>=-ok_elim (insert_if meetup (λ p. A.meetup_adapter (oauth p)) config.meetup r₁) _ h
            λ r₂ h₂ h₃.
              let e₁ =
                has-insert_if eventbrite p (λ p. A.eventbrite_adapter (oauth p)) config.eventbrite
                  builtin r₁ h₁ in
              let e₂ =
                has-insert_if meetup p (λ p. A.meetup_adapter (oauth p)) config.meetup r₁ r₂ h₂ in
              let e₃ =
                has-insert_if meta_facebook_page p
                  (λ p. ok (A.meta_adapter (oauth p) config.meta_graph_version)) config.meta r₂
                  registry h₃ in
              e₃ ∙ rw (e₂, e₁) (registered config p)

  configured-is_set :
      (config : Config Url) (p : ProviderKind)
      → from_env E ≡ ok config
      → (configured config p ≡ all (is_set E) (variables p))
        × ((all (is_set E) (variables p) ≡ true) ⊎ (any (is_set E) (variables p) ≡ false))
  unfolding configured
  configured-is_set config eventbrite h =
      let g = (from_env-HasGroups E config h).eventbrite_read in (g.configured, g.together)
  configured-is_set config meetup h =
      let g = (from_env-HasGroups E config h).meetup_read in (g.configured, g.together)
  configured-is_set config meta_facebook_page h =
      let g = (from_env-HasGroups E config h).meta_read in (g.configured, g.together)
  configured-is_set config craigslist h = (refl, inl refl)
  configured-is_set config generic_webhook h = (refl, inl refl)

  -- A deployment that starts has an adapter for a provider exactly when every variable that the
  -- provider needs is set to a text that is not blank; and of a provider's variables all are set so,
  -- or none.
  pub deployed :
      (config : Config Url) (registry : ProviderRegistry A.Adapter)
      → from_env E ≡ ok config
      → build A config ≡ ok registry
      → (p : ProviderKind)
      → (is_some (get registry p) ≡ all (is_set E) (variables p))
        × ((all (is_set E) (variables p) ≡ true) ⊎ (any (is_set E) (variables p) ≡ false))
  deployed config registry read built p =
      let (set, together) = configured-is_set config p read in
      (build-configured config registry p built ∙ set, together)
