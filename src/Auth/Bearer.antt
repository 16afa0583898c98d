-- ===== src/Auth/Bearer.antt =====
-- Which requests src/auth.rs takes for which user.
use Prim.Native.Char.{code}
use Prim.Native.String.{◌++◌ as append}
use Prim.Native.String.append as append_of
use text.Mathlib.TextEquality.{Char-path}
use evgl_api.Base.{
  ◌==◌, true, String, Option, none, some, ◌≡◌, refl, sym, ap, ◌∙◌, ◌↔◌, inl, inr, arith, Bool-cases,
  Option-cases, some-injective,
}
use evgl_api.Rust.{ok, ok_or, map_err, >>=-ok_elim, ok-injective, ok_or-ok, map_err-ok}
use evgl_api.Auth.{User, Claims, Verifier, strip_prefix, bearer, from_request_parts}

strip_prefix-append : (prefix s : String) → strip_prefix prefix (append prefix s) ≡ some s
unfolding strip_prefix
strip_prefix-append String.[] s = ap some (append_of.nil s)
strip_prefix-append (String.◌∷◌ c prefix) s =
    let same : (code c == code c) ≡ true = ground arith in
    ap (strip_prefix (String.◌∷◌ c prefix)) (append_of.cons c prefix s)
    ∙ rw same (strip_prefix-append prefix s)

append-strip_prefix :
    (prefix text rest : String) → strip_prefix prefix text ≡ some rest → text ≡ append prefix rest
unfolding strip_prefix
append-strip_prefix String.[] text rest h = some-injective h ∙ sym (append_of.nil rest)
append-strip_prefix (String.◌∷◌ c prefix) String.[] rest h = cc
append-strip_prefix (String.◌∷◌ c prefix) (String.◌∷◌ d text) rest h =
    elim (Bool-cases (code c == code d)) [
      | inl same ↦
          let e : code d ≡ code c = ground (arith, same) in
          let tail = append-strip_prefix prefix text rest (rw same at (h)) in
          (λ i. String.◌∷◌ (Char-path d c e i) (tail i)) ∙ sym (append_of.cons c prefix rest)
      | inr differs ↦ let clash : ◌≡◌ {A = Option String} none (some rest) = rw differs at (h) in cc
    ]

module _ (V : Verifier) (jwt_secret : String) (headers : String → Option V.HeaderValue) where
  -- The request has a bearer token that the secret verifies and whose subject is the user.
  pub record IsBearer (user : User) : Type 0 where
    pub value : V.HeaderValue
    pub token : String
    pub claims : Claims
    pub header : headers "authorization" ≡ some value
    pub scheme : V.to_str value ≡ some (append "Bearer " token)
    pub verified : V.decode jwt_secret token ≡ ok claims
    pub subject : V.parse_uuid claims.sub ≡ ok user.id

  bearer-IsBearer :
      (header : String)
      → bearer V headers ≡ some header
      → (value : V.HeaderValue) × (headers "authorization" ≡ some value)
        × (V.to_str value ≡ some (append "Bearer " header))
  bearer-IsBearer header h = elim (Option-cases (headers "authorization")) [
    | inl missing ↦ let clash : ◌≡◌ {A = Option String} none (some header) = rw missing at (h) in cc
    | inr (value, found) ↦ elim (Option-cases (V.to_str value)) [
      | inl bad ↦
          let clash : ◌≡◌ {A = Option String} none (some header) = rw (found, bad) at (h) in cc
      | inr (text, good) ↦ (
        value,
        found,
        good ∙ ap some (append-strip_prefix "Bearer " text header (rw (found, good) at (h))),
      )
    ]
  ]

  from_request_parts-IsBearer :
      (user : User) → from_request_parts V jwt_secret headers ≡ ok user → IsBearer user
  unfolding from_request_parts
  from_request_parts-IsBearer user h =
      >>=-ok_elim (ok_or (bearer V headers) (401, "missing bearer token")) _ h λ header has h.
        >>=-ok_elim (map_err (λ _. (401, "invalid bearer token")) (V.decode jwt_secret header)) _ h
          λ token valid h.
            >>=-ok_elim
              (map_err (λ _. (401, "token subject must be a UUID")) (V.parse_uuid token.sub)) _ h
              λ id parsed h.
                let (value, header_is, scheme) = bearer-IsBearer header (ok_or-ok _ _ header has) in
                record {
                  value = value;
                  token = header;
                  claims = token;
                  header = header_is;
                  scheme = scheme;
                  verified = map_err-ok _ _ token valid;
                  subject = map_err-ok _ _ id parsed ∙ ap (λ (u : User). ok u.id) (ok-injective h);
                }

  IsBearer-from_request_parts :
      (user : User) → IsBearer user → from_request_parts V jwt_secret headers ≡ ok user
  unfolding from_request_parts
  IsBearer-from_request_parts user b =
      rw (b.header, b.scheme, strip_prefix-append "Bearer " b.token, b.verified, b.subject) refl

  -- A request is taken as a user's exactly when its Authorization header is `Bearer ` and a token
  -- that verifies under the secret and whose subject is the user's id.
  pub from_request_parts_lem :
      (user : User) → (from_request_parts V jwt_secret headers ≡ ok user) ↔ IsBearer user
  from_request_parts_lem user = (from_request_parts-IsBearer user, IsBearer-from_request_parts user)
