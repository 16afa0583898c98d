-- ===== src/OAuth/Webhook.antt =====
-- src/oauth.rs: `validate_webhook_endpoint`. A parsed url::Url is its scheme and its host, and an
-- address its octets or segments; the tests on addresses are those of std::net.
use Prim.Native.Char.{code}
use evgl_api.Base.{
  ℕ, ◌+◌, ◌/◌, ◌%◌, Bool, true, false, ◌||◌, ◌&&◌, not, ◌==◌, leb, str_eq, if◌then◌else◌, String,
  Option, none, some,
}
use evgl_api.Rust.{Result, ok, err, ◌>>=◌, ◌>>◌, ok_or, fail_if}
use evgl_api.Error.{ApiError, bad_request}

pub record Ipv4Addr : Type 0 where
  pub a : ℕ
  pub b : ℕ
  pub c : ℕ
  pub d : ℕ

pub record Ipv6Addr : Type 0 where
  pub s0 : ℕ
  pub s1 : ℕ
  pub s2 : ℕ
  pub s3 : ℕ
  pub s4 : ℕ
  pub s5 : ℕ
  pub s6 : ℕ
  pub s7 : ℕ

pub data Host : Type 0 where
  domain : String → Host
  ipv4 : Ipv4Addr → Host
  ipv6 : Ipv6Addr → Host

pub record Endpoint : Type 0 where
  pub scheme : String
  pub host : Option Host

is_private : Ipv4Addr → Bool
is_private x = x.a == 10 || (x.a == 172 && leb 16 x.b && leb x.b 31) || (x.a == 192 && x.b == 168)

is_documentation : Ipv4Addr → Bool
is_documentation x =
    (x.a == 192 && x.b == 0 && x.c == 2)
    || (x.a == 198 && x.b == 51 && x.c == 100)
    || (x.a == 203 && x.b == 0 && x.c == 113)

unfoldable pub blocked_ipv4 : Ipv4Addr → Bool
unfolding is_private is_documentation
blocked_ipv4 x =
    is_private x
    || x.a == 127
    || (x.a == 169 && x.b == 254)
    || (x.a == 255 && x.b == 255 && x.c == 255 && x.d == 255)
    || is_documentation x
    || (x.a == 0 && x.b == 0 && x.c == 0 && x.d == 0)

-- The first five segments are zero.
abbrev pub is_low : Ipv6Addr → Bool
is_low x = x.s0 == 0 && x.s1 == 0 && x.s2 == 0 && x.s3 == 0 && x.s4 == 0

abbrev pub mapped : Ipv6Addr → Ipv4Addr
mapped x = record { a = x.s6 / 256; b = x.s6 % 256; c = x.s7 / 256; d = x.s7 % 256 }

unfoldable pub to_ipv4_mapped : Ipv6Addr → Option Ipv4Addr
to_ipv4_mapped x = if is_low x && x.s5 == 65535 then some (mapped x) else none

abbrev pub is_some_and : Option Ipv4Addr → (Ipv4Addr → Bool) → Bool
is_some_and none p = false
is_some_and (some x) p = p x

unfoldable pub blocked_ipv6 : Ipv6Addr → Bool
unfolding to_ipv4_mapped
blocked_ipv6 x =
    (is_low x && x.s5 == 0 && x.s6 == 0 && x.s7 == 1)
    || (is_low x && x.s5 == 0 && x.s6 == 0 && x.s7 == 0)
    || x.s0 / 512 == 126
    || x.s0 / 64 == 1018
    || is_some_and (to_ipv4_mapped x) blocked_ipv4

to_lower : ℕ → ℕ
to_lower c = if leb b'A' c && leb c b'Z' then c + 32 else c

-- `eq_ignore_ascii_case`
unfoldable pub eq_ignore_ascii_case : String → String → Bool
unfolding to_lower
eq_ignore_ascii_case String.[] String.[] = true
eq_ignore_ascii_case String.[] (String.◌∷◌ d t) = false
eq_ignore_ascii_case (String.◌∷◌ c s) String.[] = false
eq_ignore_ascii_case (String.◌∷◌ c s) (String.◌∷◌ d t) =
    to_lower (code c) == to_lower (code d) && eq_ignore_ascii_case s t

-- `ends_with`
unfoldable pub ends_with : String → String → Bool
ends_with String.[] suffix = str_eq String.[] suffix
ends_with (String.◌∷◌ c s) suffix = str_eq (String.◌∷◌ c s) suffix || ends_with s suffix

is_blocked : Host → Result Bool ApiError
is_blocked (domain host) =
    if eq_ignore_ascii_case host "localhost" || ends_with host ".localhost"
    then err (bad_request "webhook endpoint cannot target localhost")
    else ok false
is_blocked (ipv4 address) = ok (blocked_ipv4 address)
is_blocked (ipv6 address) = ok (blocked_ipv6 address)

unfoldable pub validate_webhook_endpoint : Endpoint → Result (Unit {0}) ApiError
unfolding is_blocked
validate_webhook_endpoint endpoint = do
  fail_if (not (str_eq endpoint.scheme "https")) (bad_request "webhook endpoint must use HTTPS")
  host ← ok_or endpoint.host (bad_request "webhook endpoint must include a host")
  blocked ← is_blocked host
  fail_if blocked (bad_request "webhook endpoint cannot target a private or local address")
