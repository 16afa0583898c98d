-- ===== src/Auth.antt =====
-- src/auth.rs: the user of a request, by its bearer token. The functions of http, jsonwebtoken and
-- uuid that it calls are the parameter Verifier.
pub mod Bearer
use Prim.Native.Char.{code}
use Prim.Native.String
use evgl_api.Base.{ℕ, ◌==◌, String, Option, none, some, if◌then◌else◌}
use evgl_api.Rust.{Result, ok, err, ok_or, map_err, ◌>>=◌}
use evgl_api.Web.{and_then}

pub record User : Type 0 where
  pub id : ℕ

pub record Claims : Type 0 where
  pub sub : String
  pub exp : ℕ

pub record Verifier : Type 1 where
  pub HeaderValue : Type 0
  pub to_str : HeaderValue → Option String
  -- `decode` under the secret, for the algorithm HS256 and its default validation
  pub decode : String → String → Result Claims String
  pub parse_uuid : String → Result ℕ String

-- `str::strip_prefix`
unfoldable pub strip_prefix : String → String → Option String
strip_prefix String.[] s = some s
strip_prefix (String.◌∷◌ c prefix) String.[] = none
strip_prefix (String.◌∷◌ c prefix) (String.◌∷◌ d s) =
    let rest = strip_prefix prefix s in if code c == code d then rest else none

module _ (V : Verifier) where
  -- What the first chain of `ok_or` returns.
  abbrev pub bearer : (String → Option V.HeaderValue) → Option String
  bearer headers = and_then (and_then (headers "authorization") V.to_str) (strip_prefix "Bearer ")

  -- The rejection is a status and a text.
  unfoldable pub from_request_parts :
      String → (String → Option V.HeaderValue) → Result User (ℕ × String)
  unfolding strip_prefix
  from_request_parts jwt_secret headers = do
    header ← ok_or (bearer headers) (401, "missing bearer token")
    token ← map_err (λ _. (401, "invalid bearer token")) (V.decode jwt_secret header)
    id ← map_err (λ _. (401, "token subject must be a UUID")) (V.parse_uuid token.sub)
    ok (record { id = id })
