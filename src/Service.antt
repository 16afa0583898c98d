-- ===== src/Service.antt =====
-- The service as a whole: its routes, and the calls that its workers make of the store, one after
-- the other in any order on the state that they share.
pub mod Keys
pub mod Routes
pub mod Sound
pub mod Isolated
use evgl_api.Base.{ℕ, String, Option, List, [], ◌∷◌}
use evgl_api.Domain.{Crates, PublishTarget}
use evgl_api.Database.{JobRow, Query}
use evgl_api.Store.Jobs.{enqueue_after}
use evgl_api.Store.Operations.{Operation, perform}
use evgl_api.OAuth.Handlers.{
  Services, CallbackQuery, ManualConnectionInput, start, callback, create_manual,
}
use evgl_api.OAuth.Connections.{delete_connection}
use evgl_api.Worker.{Env, Effect, sent, requested, slept, run}
use evgl_api.App.{AppState, Handler, ◌>>=◌, query, channel}
use evgl_api.Web.{Web}
use evgl_api.Events.{CreateEventInput, create, cross_post, post}
use evgl_api.Jobs.{websocket}

module _ (C : Crates) (S : Services C) (W : Web C) where
  -- A request to a route that can change the state, by what the route is given; the rest of a
  -- `cross_post` that other requests overlap, by the job that it has found or none; or a call of the
  -- store by a worker, or a whole run of a worker for a job after what was done before.
  pub data Request : Type 0 where
    post_start : ℕ → String → String → ℕ → String → Request
    get_callback : ℕ → (ℕ → ℕ) → String → CallbackQuery → Request
    post_manual : ℕ → ℕ → String → ℕ → ManualConnectionInput C → Request
    delete_one : ℕ → ℕ → Request
    post_event : ℕ → ℕ → ℕ → CreateEventInput C → Request
    post_cross_post :
        ℕ
        → (ℕ → ℕ)
        → ℕ
        → ℕ
        → (String → Option W.HeaderValue)
        → List (PublishTarget C.Json)
        → Request
    post_cross_post_after :
        Option JobRow → ℕ → (ℕ → ℕ) → ℕ → ℕ → String → List (PublishTarget C.Json) → Request
    get_job_socket : ℕ → ℕ → Request
    worker_call : Operation C → Request
    worker_run : Env C → JobRow → Request

  abbrev through : {A : Type 0} → Query C.Json A → AppState C → AppState C
  through q s = record s { db = (q s.db).1 }

  -- The rest of a `cross_post` whose transaction has looked for the key before other requests.
  abbrev raced :
      Option JobRow
      → ℕ
      → (ℕ → ℕ)
      → ℕ
      → ℕ
      → String
      → List (PublishTarget C.Json)
      → Handler C (ℕ × JobRow)
  raced read now fresh user event_id key targets =
      query (enqueue_after C read now fresh user event_id key targets) >>= post

  -- `emit` sends each update on the channel that `channel` gives, which makes one where none is there.
  abbrev pub tell : List (Effect C.Publication) → AppState C → AppState C
  tell [] s = s
  tell (sent job_id u ∷ earlier) s = (channel job_id (tell earlier s)).1
  tell (requested p ∷ earlier) s = tell earlier s
  tell (slept n ∷ earlier) s = tell earlier s

  -- The state after a request, whether it succeeds or fails.
  abbrev pub serve : Request → AppState C → AppState C
  serve (post_start now state verifier user path) = through (start C S now state verifier user path)
  serve (get_callback now fresh path query) = through (callback C S now fresh path query)
  serve (post_manual now id random user input) =
      through (create_manual C S now id random user input)
  serve (delete_one user id) = through (delete_connection user id)
  serve (post_event now id user input) = λ s. (create C now id user input s).1
  serve (post_cross_post now fresh user event_id headers targets) =
      λ s. (cross_post C W now fresh user event_id headers targets s).1
  serve (post_cross_post_after read now fresh user event_id key targets) =
      λ s. (raced read now fresh user event_id key targets s).1
  serve (get_job_socket user job_id) = λ s. (websocket user job_id s).1
  serve (worker_call o) = λ s. record s { db = perform o s.db }
  serve (worker_run E job) = λ s.
      let w = (run C E job (record { db = s.db; trace = [] })).1 in
      tell w.trace (record s { db = w.db })

  abbrev pub serve_all : List Request → AppState C → AppState C
  serve_all [] s = s
  serve_all (r ∷ rs) s = serve_all rs (serve r s)
