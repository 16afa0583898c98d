-- ===== src/Rust.antt =====
-- What the Rust language gives the code: `Result<T, E>` with its `?` operator, and text built by
-- `format!` from its parts.
use Prim.Native.String.{String, ◌++◌ as append}
use evgl_api.Base.{
  ◌≡◌, refl, ap, Bool, true, false, arith, List, [], ◌∷◌, Option, none, some, ◌⊎◌, inl, inr,
}

pub data Result {ℓ κ} (A : Type ℓ) (E : Type κ) : Type (ℓ ⊔ κ) where
  ok : A → Result A E
  err : E → Result A E

-- `?`
infixl 5 ◌>>=◌ ◌>>◌
abbrev pub ◌>>=◌ {ℓ κ μ} :
    {A : Type ℓ} {B : Type κ} {E : Type μ} → Result A E → (A → Result B E) → Result B E
ok a >>= f = f a
err e >>= f = err e

abbrev pub ◌>>◌ {κ μ} : {B : Type κ} {E : Type μ} → Result (Unit {0}) E → Result B E → Result B E
m >> k = m >>= λ _. k

abbrev pub ok_or {ℓ κ} : {A : Type ℓ} {E : Type κ} → Option A → E → Result A E
ok_or none e = err e
ok_or (some a) e = ok a

-- `if test { return Err(e); }`
abbrev pub fail_if {κ} : {E : Type κ} → Bool → E → Result (Unit {0}) E
fail_if true e = err e
fail_if false e = ok tt

abbrev pub map_err {ℓ κ μ} :
    {A : Type ℓ} {E : Type κ} {F : Type μ} → (E → F) → Result A E → Result A F
map_err f (ok a) = ok a
map_err f (err e) = err (f e)

pub Result-cases {ℓ κ} :
    {A : Type ℓ} {E : Type κ} (r : Result A E) → ((a : A) × (r ≡ ok a)) ⊎ ((e : E) × (r ≡ err e))
Result-cases (ok a) = inl (a, refl)
Result-cases (err e) = inr (e, refl)

pub err-ne-ok : {A E : Type 0} {e : E} {a : A} → ◌≡◌ {A = Result A E} (err e) (ok a) → ⊥
err-ne-ok h = cc

pub ok-injective : {A E : Type 0} {a b : A} → ◌≡◌ {A = Result A E} (ok a) (ok b) → a ≡ b
ok-injective h = ground arith

-- `format!` of its pieces, the literal ones and the displayed ones, in order.
abbrev pub format : List String → String
format [] = ""
format (s ∷ parts) = append s (format parts)

-- Inversion of `?` where it succeeds, for whatever follows from it.
pub >>=-ok_elim {ℓ} :
    {A B E : Type 0} {G : Type ℓ} (r : Result A E) (f : A → Result B E) {b : B}
    → (r >>= f) ≡ ok b
    → ((a : A) → r ≡ ok a → f a ≡ ok b → G)
    → G
>>=-ok_elim (ok a) f h then = then a refl h
>>=-ok_elim (err e) f h then = absurd (err-ne-ok h)

pub ok_or-ok : {A E : Type 0} (o : Option A) (e : E) (a : A) → ok_or o e ≡ ok a → o ≡ some a
ok_or-ok none e a h = absurd (err-ne-ok h)
ok_or-ok (some b) e a h = ap some (ok-injective h)

pub map_err-ok :
    {A E F : Type 0} (f : E → F) (r : Result A E) (a : A) → map_err f r ≡ ok a → r ≡ ok a
map_err-ok f (ok b) a h = ap ok (ok-injective h)
map_err-ok f (err e) a h = absurd (err-ne-ok h)
