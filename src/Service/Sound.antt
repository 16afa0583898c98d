-- ===== src/Service/Sound.antt =====
-- What every run of the service keeps.
use evgl_api.Base.{List, [], ◌∷◌}
use evgl_api.Domain.{Crates}
use evgl_api.Database.Integrity.{IsConsistent}
use evgl_api.Store.Operations.{perform}
use evgl_api.Store.Operations.Consistent.{store-IsConsistent}
use evgl_api.Store.Operations.Keys.{HasKeyOf, store-HasKeyOf}
use evgl_api.Worker.{World, Effect, sent, requested, slept, run}
use evgl_api.Worker.Tells.{run-StoreKeeps}
use evgl_api.App.{AppState}
use evgl_api.Web.{Web}
use evgl_api.OAuth.Handlers.{Services, start, callback, create_manual}
use evgl_api.OAuth.Connections.{delete_connection}
use evgl_api.OAuth.Keep.{start-Keeps, callback-Keeps, create_manual-Keeps, delete_connection-Keeps}
use evgl_api.Service.{
  Request, post_start, get_callback, post_manual, delete_one, post_event, post_cross_post,
  post_cross_post_after, get_job_socket, worker_call, worker_run, serve, serve_all, tell,
}
use evgl_api.Service.Routes.{
  IsSound, through-IsSound, query-IsSound, create-IsSound, websocket-IsSound, channel-IsSound,
  cross_post-IsSound, raced-IsSound,
}

module _ (C : Crates) (S : Services C) (W : Web C) where
  tell-IsSound :
      (trace : List (Effect C.Publication)) (s : AppState C)
      → IsSound s
      → IsSound (tell C S W trace s)
  tell-IsSound [] s h = h
  tell-IsSound (sent job_id u ∷ earlier) s h =
      channel-IsSound C job_id (tell C S W earlier s) (tell-IsSound earlier s h)
  tell-IsSound (requested p ∷ earlier) s h = tell-IsSound earlier s h
  tell-IsSound (slept n ∷ earlier) s h = tell-IsSound earlier s h

  serve-IsSound : (r : Request C S W) (s : AppState C) → IsSound s → IsSound (serve C S W r s)
  serve-IsSound (post_start now state verifier user path) s h =
      query-IsSound C (start C S now state verifier user path) s
        (λ P keep.
          start-Keeps C S (λ _. Unit {0}) P (λ o _. keep o) now state verifier user path
            (λ _ _. tt))
        h
  serve-IsSound (get_callback now fresh path query) s h =
      query-IsSound C (callback C S now fresh path query) s
        (λ P keep db.
          callback-Keeps C S (λ _. Unit {0}) P (λ o _. keep o) now fresh path query db tt
            (λ _ _ _ _ _ _ _ _. tt))
        h
  serve-IsSound (post_manual now id random user input) s h =
      query-IsSound C (create_manual C S now id random user input) s
        (λ P keep.
          create_manual-Keeps C S (λ _. Unit {0}) P (λ o _. keep o) now id random user input
            (λ _. tt))
        h
  serve-IsSound (delete_one user id) s h =
      query-IsSound C (delete_connection user id) s
        (λ P keep. delete_connection-Keeps C (λ _. Unit {0}) P (λ o _. keep o) user id tt) h
  serve-IsSound (post_event now id user input) s h = create-IsSound C now id user input s h
  serve-IsSound (post_cross_post now fresh user event_id headers targets) s h =
      cross_post-IsSound C W now fresh user event_id headers targets s h
  serve-IsSound (post_cross_post_after read now fresh user event_id key targets) s h =
      raced-IsSound C now fresh user event_id targets read key s h
  serve-IsSound (get_job_socket user job_id) s h = websocket-IsSound C user job_id s h
  serve-IsSound (worker_call o) s h =
      through-IsSound C (perform o s.db) s (store-IsConsistent C o s.db)
        (λ j. store-HasKeyOf C j o s.db) h
  serve-IsSound (worker_run E job) s h =
      let w : World C = record { db = s.db; trace = [] } in
      let r = run C E job w in
      tell-IsSound r.1.trace (record s { db = r.1.db })
        (through-IsSound C r.1.db s (run-StoreKeeps C E job IsConsistent (store-IsConsistent C) w)
          (λ j. run-StoreKeeps C E job (HasKeyOf j) (store-HasKeyOf C j) w) h)

  -- Whatever requests, calls and runs of the workers the service takes, in whatever order and
  -- however each ends, and wherever a cross_post looked for its key before other requests, its tables stay consistent, each job keeps a channel of its own, and at most one worker
  -- is started for each key of a user, for a job that is stored.
  pub serve_all-IsSound :
      (rs : List (Request C S W)) (s : AppState C) → IsSound s → IsSound (serve_all C S W rs s)
  serve_all-IsSound [] s h = h
  serve_all-IsSound (r ∷ rs) s h = serve_all-IsSound rs (serve C S W r s) (serve-IsSound r s h)
