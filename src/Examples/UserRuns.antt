-- ===== src/Examples/UserRuns.antt =====
-- Requests of the user 7 beside the user 8, who has a connection.
use evgl_api.Base.{◌+◌, List, [], ◌∷◌, refl}
use evgl_api.App.{new_state, AppState}
use evgl_api.OAuth.Handlers.{start}
use evgl_api.Store.Sessions.{create_oauth_session}
use evgl_api.Store.Operations.Isolated.{SameReads}
use evgl_api.Service.{Request, post_start, get_callback, delete_one, serve_all}
use evgl_api.Service.Isolated.{serve_all-SameReads}
use evgl_api.Examples.Setup.{crates, no_rows}
use evgl_api.Examples.StoreRuns.{meetup_row}
use evgl_api.Examples.OAuthRuns.{services, query}
use evgl_api.Examples.ServiceRuns.{web, requests}

abbrev connected : AppState crates
connected = new_state (record no_rows { provider_connections = meetup_row 2 8 ∷ [] })

abbrev of_others : List (Request crates services web)
of_others =
    post_start 10 "state" "verifier" 7 "meetup"
    ∷ get_callback 11 (λ n. n + 30) "meetup" query
    ∷ delete_one 7 2
    ∷ requests

serve_all-SameReads_example :
    SameReads crates 8 connected.db (serve_all crates services web of_others connected).db
unfolding start create_oauth_session
serve_all-SameReads_example =
    serve_all-SameReads crates services web 8 of_others connected
      (refl, (refl, (refl, (refl, (refl, (refl, (refl, (refl, (refl, tt)))))))))
