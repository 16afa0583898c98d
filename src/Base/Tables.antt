-- ===== src/Base/Tables.antt =====
-- How the lists that stand for tables answer tests after rows are added, removed or changed.
use evgl_api.Base.{
  ◌||◌, ◌∙◌, sym, ltb, count, ℕ, zero, suc, ◌≤◌, In, take, length, insert_by, sort_by, Bool, true,
  false, List, [], ◌∷◌, ◌≡◌, refl, not, any, find, filter, update_where, All, some, none, arith,
  inl, inr, Bool-cases,
}

or_right : (b : Bool) {c : Bool} → c ≡ true → (b || c) ≡ true
or_right true h = refl
or_right false h = h

module _ {A : Type 0} where
  abbrev pub Distinct : (A → A → Bool) → List A → Type 0
  Distinct same [] = Unit
  Distinct same (x ∷ xs) = (any (same x) xs ≡ false) × Distinct same xs

  pub any-filter : (p q : A → Bool) (xs : List A) → any p xs ≡ false → any p (filter q xs) ≡ false
  any-filter p q [] h = refl
  any-filter p q (x ∷ xs) h = ground (arith, any-filter p q xs)

  pub Distinct-filter :
      (same : A → A → Bool) (q : A → Bool) (xs : List A)
      → Distinct same xs
      → Distinct same (filter q xs)
  Distinct-filter same q [] d = tt
  Distinct-filter same q (x ∷ xs) d =
      ground (arith, Distinct-filter same q xs d.1, any-filter (same x) q xs d.0)

  -- A filter that drops nothing a test accepts keeps the test's answer.
  pub any-filter_keep :
      (p q : A → Bool) (xs : List A)
      → ((x : A) → p x ≡ true → q x ≡ true)
      → any p (filter q xs) ≡ any p xs
  any-filter_keep p q [] h = refl
  any-filter_keep p q (x ∷ xs) h = ground (arith, h x, any-filter_keep p q xs h)

  pub any_mono :
      (p q : A → Bool) (xs : List A)
      → ((x : A) → p x ≡ true → q x ≡ true)
      → any p xs ≡ true
      → any q xs ≡ true
  any_mono p q [] h a = a
  any_mono p q (x ∷ xs) h a = ground (arith, h x, any_mono p q xs h)

  pub any-update :
      (p q : A → Bool) (f : A → A) (xs : List A)
      → ((x : A) → p (f x) ≡ p x)
      → any p (update_where q f xs) ≡ any p xs
  any-update p q f [] h = refl
  any-update p q f (x ∷ xs) h = ground (arith, h x, any-update p q f xs h)

  pub any_congr : (p q : A → Bool) (xs : List A) → ((x : A) → p x ≡ q x) → any p xs ≡ any q xs
  any_congr p q [] h = refl
  any_congr p q (x ∷ xs) h = rw (h x, any_congr p q xs h)

  pub Distinct-update :
      (same : A → A → Bool) (q : A → Bool) (f : A → A) (xs : List A)
      → ((x y : A) → same (f x) y ≡ same x y)
      → ((x y : A) → same x (f y) ≡ same x y)
      → Distinct same xs
      → Distinct same (update_where q f xs)
  Distinct-update same q f [] l r d = tt
  Distinct-update same q f (x ∷ xs) l r d = elim (Bool-cases (q x)) [
    | inl e ↦ (
      rw
          (
            e,
            any_congr (same (f x)) (same x) (update_where q f xs) (l x),
            any-update (same x) q f xs (r x),
          )
          d.0,
      Distinct-update same q f xs l r d.1,
    )
    | inr e ↦ (rw (e, any-update (same x) q f xs (r x)) d.0, Distinct-update same q f xs l r d.1)
  ]

  pub All-mono : (P Q : A → Type 0) (xs : List A) → ((x : A) → P x → Q x) → All P xs → All Q xs
  All-mono P Q [] h a = tt
  All-mono P Q (x ∷ xs) h a = (h x a.0, All-mono P Q xs h a.1)

  pub All-update :
      (P : A → Type 0) (q : A → Bool) (f : A → A) (xs : List A)
      → ((x : A) → P x → P (f x))
      → All P xs
      → All P (update_where q f xs)
  All-update P q f [] h a = tt
  All-update P q f (x ∷ xs) h a = elim (Bool-cases (q x)) [
    | inl e ↦ (rw e (h x a.0), All-update P q f xs h a.1)
    | inr e ↦ (rw e a.0, All-update P q f xs h a.1)
  ]

  pub filter-not_none :
      (p : A → Bool) (xs : List A) → any p xs ≡ false → filter (λ x. not (p x)) xs ≡ xs
  filter-not_none p [] h = refl
  filter-not_none p (x ∷ xs) h = ground (arith, filter-not_none p xs)

  -- What `find` returns passes the test, and nothing passes it when `find` fails.
  pub find_passes : (p : A → Bool) (xs : List A) {a : A} → find p xs ≡ some a → p a ≡ true
  find_passes p [] h = cc
  find_passes p (x ∷ xs) {a} h = ground (arith, find_passes p xs {a = a})

  pub find-any : (p : A → Bool) (xs : List A) {a : A} → find p xs ≡ some a → any p xs ≡ true
  find-any p [] h = cc
  find-any p (x ∷ xs) {a} h = ground (arith, find-any p xs {a = a})

  pub find-none : (p : A → Bool) (xs : List A) → find p xs ≡ none → any p xs ≡ false
  find-none p [] h = refl
  find-none p (x ∷ xs) h = ground (arith, find-none p xs)

  pub find-filter-not : (p : A → Bool) (xs : List A) → find p (filter (λ x. not (p x)) xs) ≡ none
  find-filter-not p [] = refl
  find-filter-not p (x ∷ xs) = ground (arith, find-filter-not p xs)

  pub any_of_find :
      (p q : A → Bool) (xs : List A) {a : A} → find p xs ≡ some a → q a ≡ true → any q xs ≡ true
  any_of_find p q [] h k = cc
  any_of_find p q (x ∷ xs) {a} h k = ground (arith, any_of_find p q xs {a = a})

  -- A filter that drops nothing a test accepts keeps what `find` returns.
  pub find-filter_keep :
      (p q : A → Bool) (xs : List A)
      → ((x : A) → p x ≡ true → q x ≡ true)
      → find p (filter q xs) ≡ find p xs
  find-filter_keep p q [] h = refl
  find-filter_keep p q (x ∷ xs) h = ground (arith, h x, find-filter_keep p q xs h)

  pub find-none_of_any : (p : A → Bool) (xs : List A) → any p xs ≡ false → find p xs ≡ none
  find-none_of_any p [] h = refl
  find-none_of_any p (x ∷ xs) h = ground (arith, find-none_of_any p xs)

  -- A table without a row that passes `q` has none that passes a stronger test.
  pub any-false_mono :
      (p q : A → Bool) (xs : List A)
      → ((x : A) → p x ≡ true → q x ≡ true)
      → any q xs ≡ false
      → any p xs ≡ false
  any-false_mono p q [] h a = refl
  any-false_mono p q (x ∷ xs) h a = ground (arith, h x, any-false_mono p q xs h)

  -- Filtering, sorting and cutting keep what holds of every row.
  pub All-filter :
      (P : A → Type 0) (q : A → Bool) (xs : List A)
      → All P xs
      → All (λ x. P x × (q x ≡ true)) (filter q xs)
  All-filter P q [] a = tt
  All-filter P q (x ∷ xs) a = elim (Bool-cases (q x)) [
    | inl e ↦ rw e ((a.0, e), All-filter P q xs a.1)
    | inr e ↦ rw e (All-filter P q xs a.1)
  ]

  All-insert_by :
      (P : A → Type 0) (le : A → A → Bool) (x : A) (xs : List A)
      → P x
      → All P xs
      → All P (insert_by le x xs)
  All-insert_by P le x [] p a = (p, tt)
  All-insert_by P le x (y ∷ ys) p a = elim (Bool-cases (le x y)) [
    | inl e ↦ rw e (p, a)
    | inr e ↦ rw e (a.0, All-insert_by P le x ys p a.1)
  ]

  pub All-sort_by :
      (P : A → Type 0) (le : A → A → Bool) (xs : List A) → All P xs → All P (sort_by le xs)
  All-sort_by P le [] a = tt
  All-sort_by P le (x ∷ xs) a = All-insert_by P le x (sort_by le xs) a.0 (All-sort_by P le xs a.1)

  pub All-take : (P : A → Type 0) (n : ℕ) (xs : List A) → All P xs → All P (take n xs)
  All-take P zero xs a = tt
  All-take P (suc n) [] a = tt
  All-take P (suc n) (x ∷ xs) a = (a.0, All-take P n xs a.1)

  pub length-take-le : (n : ℕ) (xs : List A) → length (take n xs) ≤ n
  length-take-le zero xs = omega arith
  length-take-le (suc n) [] = omega arith
  length-take-le (suc n) (x ∷ xs) = omega (arith, length-take-le n xs)

  pub All-In_mono : (f : A → Type 0) (xs : List A) → ((x : A) → In x xs → f x) → All f xs
  All-In_mono f [] h = tt
  All-In_mono f (x ∷ xs) h = (h x (inl refl), All-In_mono f xs (λ y m. h y (inr m)))

  pub All-In : (xs : List A) → All (λ x. In x xs) xs
  All-In xs = All-In_mono (λ x. In x xs) xs (λ x m. m)

  pub any_of_In :
      (p q : A → Bool) (a : A) (xs : List A)
      → In a xs
      → p a ≡ true
      → q a ≡ true
      → any p (filter q xs) ≡ true
  any_of_In p q a [] m h k = absurd m
  any_of_In p q a (x ∷ xs) (inl e) h k = rw (← e, k, h)
  any_of_In p q a (x ∷ xs) (inr m) h k = elim (Bool-cases (q x)) [
    | inl kept ↦ rw (kept) (or_right (p x) (any_of_In p q a xs m h k))
    | inr dropped ↦ rw (dropped) (any_of_In p q a xs m h k)
  ]

  any-insert_by :
      (p : A → Bool) (le : A → A → Bool) (x : A) (xs : List A)
      → any p (insert_by le x xs) ≡ (p x || any p xs)
  any-insert_by p le x [] = refl
  any-insert_by p le x (y ∷ ys) = ground (arith, any-insert_by p le x ys)

  pub any-sort_by :
      (p : A → Bool) (le : A → A → Bool) (xs : List A) → any p (sort_by le xs) ≡ any p xs
  any-sort_by p le [] = refl
  any-sort_by p le (x ∷ xs) = any-insert_by p le x (sort_by le xs) ∙ rw (any-sort_by p le xs)

  -- A positive count is a row that passes.
  pub ltb-count : (p : A → Bool) (xs : List A) → ltb 0 (count p xs) ≡ any p xs
  ltb-count p [] = refl
  ltb-count p (x ∷ xs) = ground (arith, ltb-count p xs)

  pub any_of_member : (p : A → Bool) (a : A) (xs : List A) → In a xs → p a ≡ true → any p xs ≡ true
  any_of_member p a [] m h = absurd m
  any_of_member p a (x ∷ xs) (inl e) h = rw (← e, h)
  any_of_member p a (x ∷ xs) (inr m) h = or_right (p x) (any_of_member p a xs m h)

  -- What is done to rows that fail a test does not show among the rows that pass it.
  pub filter-update :
      (p q : A → Bool) (f : A → A) (xs : List A)
      → ((x : A) → q x ≡ true → p x ≡ false)
      → ((x : A) → p (f x) ≡ p x)
      → filter p (update_where q f xs) ≡ filter p xs
  filter-update p q f [] apart same = refl
  filter-update p q f (x ∷ xs) apart same =
      ground (arith, apart x, same x, filter-update p q f xs apart same)

  pub filter-filter_keep :
      (p q : A → Bool) (xs : List A)
      → ((x : A) → p x ≡ true → q x ≡ true)
      → filter p (filter q xs) ≡ filter p xs
  filter-filter_keep p q [] keep = refl
  filter-filter_keep p q (x ∷ xs) keep = ground (arith, keep x, filter-filter_keep p q xs keep)

  pub find-filter :
      (p q : A → Bool) (xs : List A)
      → ((x : A) → p x ≡ true → q x ≡ true)
      → find p xs ≡ find p (filter q xs)
  find-filter p q xs keep = sym (find-filter_keep p q xs keep)
