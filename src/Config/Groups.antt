-- ===== src/Config/Groups.antt =====
-- The variables that src/config.rs reads for a provider are set together or not at all.
use evgl_api.Base.{
  Bool, true, false, ◌≡◌, refl, ◌⊎◌, inl, inr, String, Option, none, some, List, [], ◌∷◌, all, any,
  arith, subst,
}
use evgl_api.Rust.{ok, format, Result-cases, err-ne-ok, >>=-ok_elim, ok-injective}
use evgl_api.Domain.{
  ProviderKind, eventbrite, meetup, meta_facebook_page, craigslist, generic_webhook,
}
use evgl_api.Config.{
  Environment, Config, OAuthProviderConfig, oauth_of, oauth, from_env, non_blank, required, parse,
}

abbrev pub is_some : {A : Type 0} → Option A → Bool
is_some none = false
is_some (some a) = true

abbrev pub group : String → List String
group prefix =
    format (prefix ∷ "_CLIENT_ID" ∷ [])
    ∷ format (prefix ∷ "_CLIENT_SECRET" ∷ [])
    ∷ format (prefix ∷ "_REDIRECT_URI" ∷ [])
    ∷ []

-- The variables that a provider needs.
abbrev pub variables : ProviderKind → List String
variables eventbrite = group "EVENTBRITE"
variables meetup = group "MEETUP"
variables meta_facebook_page = group "META"
variables craigslist = []
variables generic_webhook = []

module _ {Url : Type 0} (E : Environment Url) where
  abbrev pub is_set : String → Bool
  is_set name = is_some (non_blank (E.var name))

  -- A group that is read has all its variables set, or none of them and no provider.
  pub record IsRead (names : List String) (provider : Option (OAuthProviderConfig Url))
      : Type 0 where
    pub configured : is_some provider ≡ all is_set names
    pub together : (all is_set names ≡ true) ⊎ (any is_set names ≡ false)

  oauth_of-IsRead :
      (prefix : String) (a b c : Option String) (r : Option (OAuthProviderConfig Url))
      → oauth_of E prefix a b c ≡ ok r
      → (is_some r ≡ all is_some (a ∷ b ∷ c ∷ []))
        × ((all is_some (a ∷ b ∷ c ∷ []) ≡ true) ⊎ (any is_some (a ∷ b ∷ c ∷ []) ≡ false))
  unfolding oauth_of
  oauth_of-IsRead prefix none none none r h = (ground arith, inr refl)
  oauth_of-IsRead prefix (some a) (some b) (some c) r h = elim (Result-cases (E.parse_url c)) [
    | inl (url, e) ↦ (ground arith, inl refl)
    | inr (_, e) ↦ absurd (err-ne-ok (rw e at (h)))
  ]
  oauth_of-IsRead prefix (some a) none c r h = absurd (err-ne-ok h)
  oauth_of-IsRead prefix none (some b) c r h = absurd (err-ne-ok h)
  oauth_of-IsRead prefix none none (some c) r h = absurd (err-ne-ok h)
  oauth_of-IsRead prefix (some a) (some b) none r h = absurd (err-ne-ok h)

  oauth-IsRead :
      (prefix : String) (r : Option (OAuthProviderConfig Url))
      → oauth E prefix ≡ ok r
      → IsRead (group prefix) r
  unfolding oauth
  oauth-IsRead prefix r h =
      let (configured, together) = oauth_of-IsRead prefix _ _ _ r h in
      record { configured = configured; together = together }

  -- A configuration that is read has each provider's group.
  pub record HasGroups (config : Config Url) : Type 0 where
    pub eventbrite_read : IsRead (group "EVENTBRITE") config.eventbrite
    pub meetup_read : IsRead (group "MEETUP") config.meetup
    pub meta_read : IsRead (group "META") config.meta

  pub from_env-HasGroups : (config : Config Url) → from_env E ≡ ok config → HasGroups config
  unfolding from_env
  from_env-HasGroups config h = >>=-ok_elim (required E "APP_PUBLIC_URL") _ h λ public _ h.
      >>=-ok_elim (parse E "APP_PUBLIC_URL" public) _ h λ _ _ h.
        >>=-ok_elim (required E "APP_WEB_URL") _ h λ web _ h.
          >>=-ok_elim (parse E "APP_WEB_URL" web) _ h λ _ _ h.
            >>=-ok_elim (required E "DATABASE_URL") _ h λ _ _ h.
              >>=-ok_elim (required E "JWT_SECRET") _ h λ _ _ h.
                >>=-ok_elim (required E "TOKEN_VAULT_KEY") _ h λ _ _ h.
                  >>=-ok_elim (oauth E "EVENTBRITE") _ h λ eventbrite has_eventbrite h.
                    >>=-ok_elim (oauth E "MEETUP") _ h λ meetup has_meetup h.
                      >>=-ok_elim (oauth E "META") _ h λ meta has_meta h.
                        let same = ok-injective h in
                        subst HasGroups same (record {
                          eventbrite_read = oauth-IsRead "EVENTBRITE" eventbrite has_eventbrite;
                          meetup_read = oauth-IsRead "MEETUP" meetup has_meetup;
                          meta_read = oauth-IsRead "META" meta has_meta;
                        })
