-- ===== src/OAuth/Connections.antt =====
-- src/oauth.rs: the routes that list and delete a user's connections.
use evgl_api.Base.{ℕ, List}
use evgl_api.Domain.{Crates}
use evgl_api.Database.{ConnectionRow, Query, ◌>>◌, pure}
use evgl_api.Store.Connections

unfoldable pub list_connections : (C : Crates) → ℕ → Query C.Json (List (ConnectionRow C.Json))
list_connections C user_id = Connections.list_connections C user_id

-- The status of the answer is 204.
unfoldable pub delete_connection : {Json : Type 0} → ℕ → ℕ → Query Json ℕ
delete_connection user_id id = Connections.delete_connection user_id id >> pure 204
