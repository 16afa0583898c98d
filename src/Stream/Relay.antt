-- ===== src/Stream/Relay.antt =====
-- What a client sees of the values that were sent on a channel, in the loops of src/events.rs and
-- src/jobs.rs.
use evgl_api.Base.{
  ℕ, Bool, true, false, String, Option, none, some, List, [], ◌∷◌, ◌++◌, ◌≡◌, refl, sym, ap, subst,
  ◌∙◌, ◌⊎◌, inl, inr, length, any, arith, Bool-cases, if◌then◌else◌,
}
use mathlib.Core.List.{append-nil, append_assoc}
use evgl_api.Rust.{Result, ok, err, Result-cases}
use evgl_api.Stream.{
  Message, text, binary, ping, pong, close, Received, received, lagged, closed, Ready, update,
  message, Flow, goes_on, breaks, Sent, send_or_break, send_json, on_message, select,
}

module _ {A : Type 0} where
  -- tokio::sync::broadcast: the receiver returns the values sent after it subscribed, oldest first;
  -- in place of those that were overwritten before it read them it returns how many they were.
  abbrev pub Delivers : List A → List (Ready A) → Type 0
  Delivers log [] = log ≡ []
  Delivers log (update now (received a) ∷ rs) =
      (rest : List A) × (log ≡ a ∷ rest) × Delivers rest rs
  Delivers log (update now (lagged n) ∷ rs) =
      (skipped : List A) × (rest : List A) × (log ≡ skipped ++ rest)
      × (length skipped ≡ n)
      × Delivers rest rs
  Delivers log (update now closed ∷ rs) = Delivers log rs
  Delivers log (message m ∷ rs) = Delivers log rs

-- The channel is closed, or the client closes the socket or loses it.
abbrev pub is_end : {A : Type 0} → Ready A → Bool
is_end (update now closed) = true
is_end (update now _) = false
is_end (message none) = true
is_end (message (some (err _))) = true
is_end (message (some (ok close))) = true
is_end (message (some (ok _))) = false

module _ {A : Type 0} (wanted : A → Bool) (payload : ℕ → A → Result String String)
    (notice : ℕ → String) where
  -- What a client is sent while these values are read: each value that is meant for it in its turn,
  -- none that is not, a notice in place of each gap, and answers to its pings in between.
  pub data Shows : List A → Sent → Type 0 where
    shows_end : Shows [] []
    shows_wanted :
        {a : A} {now : ℕ} {t : String} {log : List A} {sent : Sent}
        → wanted a ≡ true
        → payload now a ≡ ok t
        → Shows log sent
        → Shows (a ∷ log) (text t ∷ sent)
    shows_other :
        {a : A} {log : List A} {sent : Sent}
        → wanted a ≡ false
        → Shows log sent
        → Shows (a ∷ log) sent
    shows_gap :
        {log : List A} {sent : Sent} (skipped : List A)
        → Shows log sent
        → Shows (skipped ++ log) (text (notice (length skipped)) ∷ sent)
    shows_pong :
        {log : List A} {sent : Sent} (bytes : List ℕ)
        → Shows log sent
        → Shows log (pong bytes ∷ sent)

  module _ (accepts : Sent → Message → Bool) where
    -- The match on an update in either loop.
    unfoldable pub on_relay : ℕ → Received A → Sent → Flow × Sent
    on_relay now (received a) sent =
        if wanted a then send_json accepts (payload now a) sent else (goes_on, sent)
    on_relay now (lagged skipped) sent = send_or_break accepts (text (notice skipped)) sent
    on_relay now closed sent = (breaks, sent)

    -- What the client is to be sent next, where `rest` is what it has not been shown: the next value
    -- that is meant for it, the notice of the next gap, or an answer to a ping.
    pub data Due (rest : List A) : Message → Type 0 where
      due_value :
          (a : A) (now : ℕ) (t : String) (later : List A)
          → rest ≡ a ∷ later
          → wanted a ≡ true
          → payload now a ≡ ok t
          → Due rest (text t)
      due_notice :
          (skipped : List A) (later : List A)
          → rest ≡ skipped ++ later
          → Due rest (text (notice (length skipped)))
      due_pong : (bytes : List ℕ) → Due rest (pong bytes)

    -- Why a loop has ended, after what it has sent: a message that was due could not be sent, the
    -- next value has no JSON text, or the channel or the socket was closed.
    pub data WhyEnded (ready : List (Ready A)) (rest : List A) (sent : Sent) : Type 0 where
      refused : (m : Message) → Due rest m → accepts sent m ≡ false → WhyEnded ready rest sent
      unprintable :
          (a : A) (now : ℕ) (e : String) (later : List A)
          → rest ≡ a ∷ later
          → wanted a ≡ true
          → payload now a ≡ err e
          → WhyEnded ready rest sent
      left : any is_end ready ≡ true → WhyEnded ready rest sent

    later-WhyEnded :
        (r : Ready A) (ready : List (Ready A)) (rest : List A) (sent : Sent)
        → WhyEnded ready rest sent
        → WhyEnded (r ∷ ready) rest sent
    later-WhyEnded r ready rest sent (refused m due failing) = refused m due failing
    later-WhyEnded r ready rest sent (unprintable a now e later next own bad) =
        unprintable a now e later next own bad
    later-WhyEnded r ready rest sent (left e) = left (ground arith)

    -- After the branches have become ready the client has been shown the values up to some place:
    -- all of them if the loop still runs, and if it has ended, there is a reason for that.
    pub record IsShown (ready : List (Ready A)) (log : List A) (sent : Sent) (out : Flow × Sent)
        : Type 0 where
      pub seen : List A
      pub rest : List A
      pub shown : Sent
      pub split : log ≡ seen ++ rest
      pub messages : out.1 ≡ sent ++ shown
      pub shows : Shows seen shown
      pub complete :
          ((out.0 ≡ breaks) × WhyEnded ready rest out.1) ⊎ ((out.0 ≡ goes_on) × (rest ≡ []))

    stopped :
        (ready : List (Ready A)) (log : List A) (sent : Sent)
        → WhyEnded ready log sent
        → IsShown ready log sent (breaks, sent)
    stopped ready log sent why = record {
      seen = [];
      rest = log;
      shown = [];
      split = refl;
      messages = sym (append-nil sent);
      shows = shows_end;
      complete = inl (refl, why);
    }

    extend :
        (r : Ready A) (ready : List (Ready A)) (first : List A) (ms : Sent) (log : List A)
        (sent : Sent) (out : Flow × Sent)
        → ((seen : List A) (shown : Sent) → Shows seen shown → Shows (first ++ seen) (ms ++ shown))
        → IsShown ready log (sent ++ ms) out
        → IsShown (r ∷ ready) (first ++ log) sent out
    extend r ready first ms log sent out lift h = record {
      seen = first ++ h.seen;
      rest = h.rest;
      shown = ms ++ h.shown;
      split = ap (λ l. first ++ l) h.split ∙ sym (append_assoc first h.seen h.rest);
      messages = h.messages ∙ append_assoc sent ms h.shown;
      shows = lift h.seen h.shown h.shows;
      complete = elim h.complete [
        | inl (ended, why) ↦ inl (ended, later-WhyEnded r ready h.rest out.1 why)
        | inr runs ↦ inr runs
      ];
    }

    -- A branch that sends nothing and goes on.
    pass :
        (r : Ready A) (ready : List (Ready A)) (log : List A) (sent : Sent) (out : Flow × Sent)
        → IsShown ready log sent out
        → IsShown (r ∷ ready) log sent out
    pass r ready log sent out h =
        extend r ready [] [] log sent out (λ seen shown s. s)
          (subst (λ l. IsShown ready log l out) (sym (append-nil sent)) h)

    message-IsShown :
        (m : Option (Result Message String)) (rs : List (Ready A)) (log : List A) (sent : Sent)
        → ((s : Sent) → IsShown rs log s (select accepts on_relay rs s))
        → IsShown (message m ∷ rs) log sent (select accepts on_relay (message m ∷ rs) sent)
    unfolding on_message
    message-IsShown none rs log sent h = stopped _ log sent (left refl)
    message-IsShown (some (err _)) rs log sent h = stopped _ log sent (left refl)
    message-IsShown (some (ok close)) rs log sent h = stopped _ log sent (left refl)
    message-IsShown (some (ok (text t))) rs log sent h =
        pass (message (some (ok (text t)))) rs log sent _ (h sent)
    message-IsShown (some (ok (binary b))) rs log sent h =
        pass (message (some (ok (binary b)))) rs log sent _ (h sent)
    message-IsShown (some (ok (pong b))) rs log sent h =
        pass (message (some (ok (pong b)))) rs log sent _ (h sent)
    message-IsShown (some (ok (ping bytes))) rs log sent h =
        elim (Bool-cases (accepts sent (pong bytes))) [
          | inr failing ↦
              rw failing (stopped _ log sent (refused (pong bytes) (due_pong bytes) failing))
          | inl taken ↦ rw taken (
              extend (message (some (ok (ping bytes)))) rs [] (pong bytes ∷ []) log sent _
                (λ seen shown s. shows_pong bytes s) (h (sent ++ (pong bytes ∷ []))))
        ]

    received-IsShown :
        (now : ℕ) (a : A) (rs : List (Ready A)) (log : List A) (sent : Sent)
        → ((s : Sent) → IsShown rs log s (select accepts on_relay rs s))
        → IsShown
            (update now (received a) ∷ rs)
            (a ∷ log)
            sent
            (select accepts on_relay (update now (received a) ∷ rs) sent)
    unfolding on_relay send_json send_or_break
    received-IsShown now a rs log sent h = elim (Bool-cases (wanted a)) [
      | inr other ↦ rw other (
          extend (update now (received a)) rs (a ∷ []) [] log sent _
            (λ seen shown s. shows_other other s)
            (subst (λ l. IsShown rs log l (select accepts on_relay rs sent)) (sym (append-nil sent))
              (h sent)))
      | inl own ↦ elim (Result-cases (payload now a)) [
        | inr (e, bad) ↦
            rw (own, bad) (stopped _ (a ∷ log) sent (unprintable a now e log refl own bad))
        | inl (t, printed) ↦ elim (Bool-cases (accepts sent (text t))) [
          | inr failing ↦
              rw (own, printed, failing)
                (stopped _ (a ∷ log) sent
                  (refused (text t) (due_value a now t log refl own printed) failing))
          | inl taken ↦
              rw (own, printed, taken)
                (extend (update now (received a)) rs (a ∷ []) (text t ∷ []) log sent _
                  (λ seen shown s. shows_wanted own printed s) (h (sent ++ (text t ∷ []))))
        ]
      ]
    ]

    -- A loop whose receiver delivers what was sent on its channel shows the client those values.
    pub relay-IsShown :
        (rs : List (Ready A)) (log : List A) (sent : Sent)
        → Delivers log rs
        → IsShown rs log sent (select accepts on_relay rs sent)
    unfolding on_relay send_or_break
    relay-IsShown [] log sent d = record {
      seen = log;
      rest = [];
      shown = [];
      split = sym (append-nil log);
      messages = sym (append-nil sent);
      shows = subst (λ l. Shows l []) (sym d) shows_end;
      complete = inr (refl, refl);
    }
    relay-IsShown (message m ∷ rs) log sent d =
        message-IsShown m rs log sent (λ s. relay-IsShown rs log s d)
    relay-IsShown (update now closed ∷ rs) log sent d = stopped _ log sent (left refl)
    relay-IsShown (update now (lagged n) ∷ rs) log sent (skipped, rest, e, size, d) =
        elim (Bool-cases (accepts sent (text (notice n)))) [
          | inr failing ↦ rw failing (
              stopped _ log sent (
                refused (text (notice n))
                  (subst (λ k. Due log (text (notice k))) size (due_notice skipped rest e))
                  failing))
          | inl taken ↦ rw taken (
              subst
                (λ l.
                  IsShown (update now (lagged n) ∷ rs) l sent
                    (select accepts on_relay rs (sent ++ (text (notice n) ∷ []))))
                (sym e)
                (extend (update now (lagged n)) rs skipped (text (notice n) ∷ []) rest sent _
                  (λ seen shown s.
                    subst (λ k. Shows (skipped ++ seen) (text (notice k) ∷ shown)) size
                      (shows_gap skipped s))
                  (relay-IsShown rs rest (sent ++ (text (notice n) ∷ [])) d)))
        ]
    relay-IsShown (update now (received a) ∷ rs) log sent (rest, e, d) =
        subst
          (λ l.
            IsShown (update now (received a) ∷ rs) l sent
              (select accepts on_relay (update now (received a) ∷ rs) sent))
          (sym e) (received-IsShown now a rs rest sent (λ s. relay-IsShown rs rest s d))

    pub shown_all :
        (ready : List (Ready A)) (log : List A) (sent : Sent) (out : Flow × Sent)
        → out.0 ≡ goes_on
        → IsShown ready log sent out
        → (shown : Sent) × (out ≡ (goes_on, sent ++ shown)) × Shows log shown
    shown_all ready log sent out runs h = elim h.complete [
      | inl (ended, why) ↦ let clash : ◌≡◌ {A = Flow} breaks goes_on = sym ended ∙ runs in cc
      | inr (_, e) ↦ (
        h.shown,
        (λ i. (runs i, h.messages i)),
        subst (λ l. Shows l h.shown) (sym (h.split ∙ ap (λ l. h.seen ++ l) e ∙ append-nil h.seen))
            h.shows,
      )
    ]
