-- ===== src/OAuth/Endpoints.antt =====
-- The endpoints that `validate_webhook_endpoint` of src/oauth.rs accepts, by blocks of addresses.
use evgl_api.Base.{
  ℕ, ◌+◌, ◌*◌, ◌/◌, ◌<◌, Bool, true, false, ◌≡◌, refl, ap, sym, ◌||◌, ◌&&◌, ◌==◌, ltb, leb, not,
  if◌then◌else◌, str_eq, String, some, List, [], ◌∷◌, any, arith, inl, inr, Bool-cases,
}
use evgl_api.Rust.{Result, ok, err}
use evgl_api.OAuth.Webhook.{
  Ipv4Addr, Ipv6Addr, Host, domain, ipv4, ipv6, blocked_ipv4, blocked_ipv6, mapped, to_ipv4_mapped,
  eq_ignore_ascii_case, ends_with, validate_webhook_endpoint, is_low, is_some_and,
}

-- A block of addresses, by its first address and the number of addresses.
pub record Block : Type 0 where
  pub first : ℕ
  pub size : ℕ

abbrev pub contains : ℕ → Block → Bool
contains n b = n / b.size == b.first / b.size

abbrev pub number : Ipv4Addr → ℕ
number x = ((x.a * 256 + x.b) * 256 + x.c) * 256 + x.d

abbrev pub IsIpv4 : Ipv4Addr → Type 0
IsIpv4 x = (x.a < 256) × (x.b < 256) × (x.c < 256) × (x.d < 256)

abbrev block : ℕ → ℕ → ℕ → ℕ → ℕ → Block
block a b c d size = record { first = ((a * 256 + b) * 256 + c) * 256 + d; size = size }

-- 10.0.0.0/8, 172.16.0.0/12, 192.168.0.0/16, 127.0.0.0/8, 169.254.0.0/16, 255.255.255.255,
-- 192.0.2.0/24, 198.51.100.0/24, 203.0.113.0/24 and 0.0.0.0.
abbrev pub blocks : List Block
blocks =
    block 10 0 0 0 16777216
    ∷ block 172 16 0 0 1048576
    ∷ block 192 168 0 0 65536
    ∷ block 127 0 0 0 16777216
    ∷ block 169 254 0 0 65536
    ∷ block 255 255 255 255 1
    ∷ block 192 0 2 0 256
    ∷ block 198 51 100 0 256
    ∷ block 203 0 113 0 256
    ∷ block 0 0 0 0 1
    ∷ []

module _ (x : Ipv4Addr) (h : IsIpv4 x) where
  by_1 : (a : ℕ) → contains (number x) (block a 0 0 0 16777216) ≡ (x.a == a)
  by_1 a =
      let e : number x / 16777216 ≡ x.a = omega (arith, h) in
      let f : (((a * 256 + 0) * 256 + 0) * 256 + 0) / 16777216 ≡ a = omega arith in rw (e, f) refl

  by_2 : (a b : ℕ) → b < 256 → contains (number x) (block a b 0 0 65536) ≡ (x.a == a && x.b == b)
  by_2 a b small =
      let e : number x / 65536 ≡ x.a * 256 + x.b = omega (arith, h) in
      let f : (((a * 256 + b) * 256 + 0) * 256 + 0) / 65536 ≡ a * 256 + b = omega arith in
      rw (e, f) (ground arith)

  by_3 :
      (a b c : ℕ)
      → b < 256
      → c < 256
      → contains (number x) (block a b c 0 256) ≡ (x.a == a && x.b == b && x.c == c)
  by_3 a b c p q =
      let e : number x / 256 ≡ (x.a * 256 + x.b) * 256 + x.c = omega (arith, h) in
      let f : (((a * 256 + b) * 256 + c) * 256 + 0) / 256 ≡ (a * 256 + b) * 256 + c = omega arith in
      rw (e, f) (ground arith)

  by_4 :
      (a b c d : ℕ)
      → b < 256
      → c < 256
      → d < 256
      → contains (number x) (block a b c d 1) ≡ (x.a == a && x.b == b && x.c == c && x.d == d)
  by_4 a b c d p q r =
      let e : number x / 1 ≡ number x = omega arith in
      let f : (((a * 256 + b) * 256 + c) * 256 + d) / 1 ≡ ((a * 256 + b) * 256 + c) * 256 + d =
        omega arith in
      rw (e, f) (ground arith)

  by_172 : contains (number x) (block 172 16 0 0 1048576) ≡ (x.a == 172 && leb 16 x.b && leb x.b 31)
  by_172 =
      let e : number x / 1048576 ≡ x.a * 16 + x.b / 16 = omega (arith, h) in rw e (ground arith)

double_negation : (b : Bool) → b ≡ not (not b)
double_negation true = refl
double_negation false = refl

regroup :
    (b0 b1 b2 b3 b4 b5 b6 b7 b8 b9 : Bool)
    → ((b0 || b1 || b2) || b3 || b4 || b5 || (b6 || b7 || b8) || b9)
      ≡ (b0 || (b1 || (b2 || (b3 || (b4 || (b5 || (b6 || (b7 || (b8 || (b9 || false))))))))))
regroup b0 b1 b2 b3 b4 b5 b6 b7 b8 b9 = ground arith

-- The tests of octets block exactly the addresses in these blocks.
blocked_ipv4-blocks : (x : Ipv4Addr) → IsIpv4 x → blocked_ipv4 x ≡ any (contains (number x)) blocks
unfolding blocked_ipv4
blocked_ipv4-blocks x h =
    rw
      (
        by_1 x h 10,
        by_172 x h,
        by_2 x h 192 168 (omega arith),
        by_1 x h 127,
        by_2 x h 169 254 (omega arith),
        by_4 x h 255 255 255 255 (omega arith) (omega arith) (omega arith),
        by_3 x h 192 0 2 (omega arith) (omega arith),
        by_3 x h 198 51 100 (omega arith) (omega arith),
        by_3 x h 203 0 113 (omega arith) (omega arith),
        by_4 x h 0 0 0 0 (omega arith) (omega arith) (omega arith),
      )
      (regroup (x.a == 10) (x.a == 172 && leb 16 x.b && leb x.b 31) (x.a == 192 && x.b == 168)
        (x.a == 127) (x.a == 169 && x.b == 254)
        (x.a == 255 && x.b == 255 && x.c == 255 && x.d == 255) (x.a == 192 && x.b == 0 && x.c == 2)
        (x.a == 198 && x.b == 51 && x.c == 100) (x.a == 203 && x.b == 0 && x.c == 113)
        (x.a == 0 && x.b == 0 && x.c == 0 && x.d == 0))

abbrev pub is_allowed_ipv4 : Ipv4Addr → Bool
is_allowed_ipv4 x = not (any (contains (number x)) blocks)

-- fc00::/7 and fe80::/10, by the first segment
abbrev pub unique_local : Block
unique_local = record { first = 0xfc00; size = 512 }

abbrev pub unicast_link_local : Block
unicast_link_local = record { first = 0xfe80; size = 64 }

-- Twice the sum of the segments but the last: with the last, at most one only at :: and at ::1.
abbrev pub first_segments : Ipv6Addr → ℕ
first_segments x = 2 * (x.s0 + x.s1 + x.s2 + x.s3 + x.s4 + x.s5 + x.s6)

-- Not :: nor ::1, in neither block, and if it stands for an IPv4 address, that one is allowed.
abbrev pub is_allowed_ipv6 : Ipv6Addr → Bool
is_allowed_ipv6 x =
    ltb 1 (first_segments x + x.s7)
    && not (contains x.s0 unique_local)
    && not (contains x.s0 unicast_link_local)
    && (if is_low x && x.s5 == 65535 then is_allowed_ipv4 (mapped x) else true)

abbrev pub IsIpv6 : Ipv6Addr → Type 0
IsIpv6 x = (x.s6 < 65536) × (x.s7 < 65536)

-- An address has octets and segments in their ranges.
abbrev pub IsHost : Host → Type 0
IsHost (domain d) = Unit
IsHost (ipv4 x) = IsIpv4 x
IsHost (ipv6 x) = IsIpv6 x

abbrev pub is_allowed : Host → Bool
is_allowed (domain d) = not (eq_ignore_ascii_case d "localhost" || ends_with d ".localhost")
is_allowed (ipv4 x) = is_allowed_ipv4 x
is_allowed (ipv6 x) = is_allowed_ipv6 x

abbrev is_mapped : Ipv6Addr → Bool
is_mapped x = is_low x && x.s5 == 65535

mapped-allowed :
    (x : Ipv6Addr)
    → IsIpv6 x
    → is_some_and (to_ipv4_mapped x) blocked_ipv4
      ≡ not (if is_mapped x then is_allowed_ipv4 (mapped x) else true)
unfolding to_ipv4_mapped
mapped-allowed x h = elim (Bool-cases (is_mapped x)) [
  | inl e ↦ rw (e, blocked_ipv4-blocks (mapped x) (omega arith)) (double_negation _)
  | inr e ↦ rw e refl
]

least_two :
    (x : Ipv6Addr)
    → ((is_low x && x.s5 == 0 && x.s6 == 0 && x.s7 == 1)
        || (is_low x && x.s5 == 0 && x.s6 == 0 && x.s7 == 0))
      ≡ not (ltb 1 (first_segments x + x.s7))
least_two x = ground arith

combine :
    (a b u l m t p : Bool)
    → (a || b) ≡ not t
    → m ≡ not p
    → not (a || b || u || l || m) ≡ (t && not u && not l && p)
combine a b u l m t p h k = ground arith

blocked_ipv6-allowed : (x : Ipv6Addr) → IsIpv6 x → not (blocked_ipv6 x) ≡ is_allowed_ipv6 x
unfolding blocked_ipv6
blocked_ipv6-allowed x h =
    combine (is_low x && x.s5 == 0 && x.s6 == 0 && x.s7 == 1)
      (is_low x && x.s5 == 0 && x.s6 == 0 && x.s7 == 0) (x.s0 / 512 == 126) (x.s0 / 64 == 1018)
      (is_some_and (to_ipv4_mapped x) blocked_ipv4) (ltb 1 (first_segments x + x.s7))
      (if is_mapped x then is_allowed_ipv4 (mapped x) else true) (least_two x) (mapped-allowed x h)

abbrev pub is_accepted : {A E : Type 0} → Result A E → Bool
is_accepted (ok a) = true
is_accepted (err e) = false

-- An endpoint with a host is accepted exactly if its scheme is https and its host is a name that is
-- not localhost in any case of its letters and does not end in .localhost, an IPv4 address outside the
-- ten listed blocks, or an IPv6 address that is neither :: nor ::1, is outside fc00::/7 and fe80::/10
-- and, where it stands for an IPv4 address, stands for one outside the ten blocks.
pub validate_webhook_endpoint_lem :
    (scheme : String) (host : Host)
    → IsHost host
    → is_accepted (validate_webhook_endpoint (record { scheme = scheme; host = some host }))
      ≡ (str_eq scheme "https" && is_allowed host)
unfolding validate_webhook_endpoint
validate_webhook_endpoint_lem scheme (domain d) h = ground arith
validate_webhook_endpoint_lem scheme (ipv4 x) h =
    rw (sym (ap not (blocked_ipv4-blocks x h))) (ground arith)
validate_webhook_endpoint_lem scheme (ipv6 x) h = rw (sym (blocked_ipv6-allowed x h)) (ground arith)
