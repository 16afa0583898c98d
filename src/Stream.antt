-- ===== src/Stream.antt =====
-- What the two WebSocket loops of src/events.rs and src/jobs.rs share: the messages, the branches of
-- `select!` that are ready one after the other, and the match on what the client sends.
pub mod Relay
pub mod Live
use evgl_api.Base.{ℕ, Bool, true, false, String, Option, none, some, List, [], ◌∷◌, ◌++◌}
use evgl_api.Rust.{Result, ok, err}

pub data Message : Type 0 where
  text : String → Message
  binary ping pong : List ℕ → Message
  close : Message

-- What `receiver.recv()` returns.
pub data Received (A : Type 0) : Type 0 where
  received : A → Received A
  lagged : ℕ → Received A
  closed : Received A

-- A branch of `select!` that is ready: an update and the clock's reading, or what
-- `incoming.next()` returns.
pub data Ready (A : Type 0) : Type 0 where
  update : ℕ → Received A → Ready A
  message : Option (Result Message String) → Ready A

-- Whether the loop goes on or has ended.
pub data Flow : Type 0 where
  goes_on breaks : Flow

-- The messages that were sent, oldest first. `accepts sent m` says whether sending `m` succeeds.
abbrev pub Sent : Type 0
Sent = List Message

module _ (accepts : Sent → Message → Bool) where
  -- `if sender.send(m).await.is_err() { break; }`
  abbrev after_send : Bool → Message → Sent → Flow × Sent
  after_send true m sent = (goes_on, sent ++ (m ∷ []))
  after_send false m sent = (breaks, sent)

  unfoldable pub send_or_break : Message → Sent → Flow × Sent
  send_or_break m sent = after_send (accepts sent m) m sent

  -- The match on a payload's JSON, which is sent or ends the loop.
  unfoldable pub send_json : Result String String → Sent → Flow × Sent
  unfolding send_or_break
  send_json (ok payload) sent = send_or_break (text payload) sent
  send_json (err _) sent = (breaks, sent)

  unfoldable pub on_message : Option (Result Message String) → Sent → Flow × Sent
  unfolding send_or_break
  on_message (some (ok close)) sent = (breaks, sent)
  on_message none sent = (breaks, sent)
  on_message (some (ok (ping bytes))) sent = send_or_break (pong bytes) sent
  on_message (some (err _)) sent = (breaks, sent)
  on_message _ sent = (goes_on, sent)

  abbrev pub next : Flow × Sent → (Sent → Flow × Sent) → Flow × Sent
  next (goes_on, sent) rest = rest sent
  next (breaks, sent) rest = (breaks, sent)

  module _ {A : Type 0} (on_update : ℕ → Received A → Sent → Flow × Sent) where
    abbrev pub on_ready : Ready A → Sent → Flow × Sent
    on_ready (update now r) sent = on_update now r sent
    on_ready (message m) sent = on_message m sent

    -- The loop, over the branches that become ready one after the other.
    abbrev pub select : List (Ready A) → Sent → Flow × Sent
    select [] sent = (goes_on, sent)
    select (r ∷ rs) sent = next (on_ready r sent) (select rs)
