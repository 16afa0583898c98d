-- ===== src/Stream/Live.antt =====
-- When the loops of src/events.rs and src/jobs.rs run on.
use evgl_api.Base.{
  ℕ, Bool, true, String, none, some, List, [], ◌∷◌, ◌≡◌, refl, inl, inr, Bool-cases, All,
}
use evgl_api.Rust.{Result, ok, err}
use evgl_api.Stream.{
  Message, text, binary, ping, pong, close, received, lagged, closed, Ready, update, message, Flow,
  goes_on, breaks, Sent, send_or_break, send_json, on_message, on_ready, select, next,
}
use evgl_api.Stream.Relay.{on_relay}

-- The channel is open, and the client neither closes the socket nor loses it.
abbrev pub IsOpen : {A : Type 0} → Ready A → Type 0
IsOpen (update now closed) = ⊥
IsOpen (update now _) = Unit
IsOpen (message none) = ⊥
IsOpen (message (some (err _))) = ⊥
IsOpen (message (some (ok close))) = ⊥
IsOpen (message (some (ok _))) = Unit

module _ {A : Type 0} (wanted : A → Bool) (payload : ℕ → A → Result String String)
    (notice : ℕ → String) where
  module _ (accepts : Sent → Message → Bool) where
    next_goes_on :
        (o : Flow × Sent) (rest : Sent → Flow × Sent)
        → o.0 ≡ goes_on
        → ((s : Sent) → (rest s).0 ≡ goes_on)
        → (next accepts o rest).0 ≡ goes_on
    next_goes_on (goes_on, sent) rest h k = k sent
    next_goes_on (breaks, sent) rest h k = h

    module _ (every : (sent : Sent) (m : Message) → accepts sent m ≡ true)
        (prints : (now : ℕ) (a : A) → (t : String) × (payload now a ≡ ok t)) where
      ready_goes_on :
          (r : Ready A) (sent : Sent)
          → IsOpen r
          → (on_ready accepts (on_relay wanted payload notice accepts) r sent).0 ≡ goes_on
      unfolding on_relay on_message send_json send_or_break
      ready_goes_on (update now (received a)) sent is_open = elim (Bool-cases (wanted a)) [
        | inr other ↦ rw other refl
        | inl own ↦ let (t, printed) = prints now a in rw (own, printed, every sent (text t)) refl
      ]
      ready_goes_on (update now (lagged n)) sent is_open = rw (every sent (text (notice n))) refl
      ready_goes_on (message (some (ok (ping bytes)))) sent is_open =
          rw (every sent (pong bytes)) refl
      ready_goes_on (message (some (ok (text _)))) sent is_open = refl
      ready_goes_on (message (some (ok (binary _)))) sent is_open = refl
      ready_goes_on (message (some (ok (pong _)))) sent is_open = refl
      ready_goes_on (message none) sent is_open = absurd is_open
      ready_goes_on (update now closed) sent is_open = absurd is_open
      ready_goes_on (message (some (ok close))) sent is_open = absurd is_open
      ready_goes_on (message (some (err _))) sent is_open = absurd is_open

      -- A loop with an open channel and an open socket runs on.
      pub relay_goes_on :
          (rs : List (Ready A)) (sent : Sent)
          → All IsOpen rs
          → (select accepts (on_relay wanted payload notice accepts) rs sent).0 ≡ goes_on
      relay_goes_on [] sent a = refl
      relay_goes_on (r ∷ rs) sent a =
          next_goes_on (on_ready accepts (on_relay wanted payload notice accepts) r sent)
            (select accepts (on_relay wanted payload notice accepts) rs) (ready_goes_on r sent a.0)
            (λ s. relay_goes_on rs s a.1)
