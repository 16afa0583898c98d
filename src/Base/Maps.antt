-- ===== src/Base/Maps.antt =====
-- How filtering and sorting a list pass through a function of its members.
use evgl_api.Base.{Bool, List, [], ◌∷◌, ◌≡◌, refl, ap, ◌∙◌, map, filter, sort_by, insert_by, arith}

module _ {A B : Type 0} (f : A → B) where
  pub map-filter :
      (p : A → Bool) (q : B → Bool) (xs : List A)
      → ((x : A) → q (f x) ≡ p x)
      → filter q (map f xs) ≡ map f (filter p xs)
  map-filter p q [] same = refl
  map-filter p q (x ∷ xs) same = ground (arith, same x, map-filter p q xs same)

  map-insert_by :
      (le : A → A → Bool) (le' : B → B → Bool) (x : A) (xs : List A)
      → ((x y : A) → le' (f x) (f y) ≡ le x y)
      → insert_by le' (f x) (map f xs) ≡ map f (insert_by le x xs)
  map-insert_by le le' x [] same = refl
  map-insert_by le le' x (y ∷ ys) same = ground (arith, same x y, map-insert_by le le' x ys same)

  pub map-sort_by :
      (le : A → A → Bool) (le' : B → B → Bool) (xs : List A)
      → ((x y : A) → le' (f x) (f y) ≡ le x y)
      → sort_by le' (map f xs) ≡ map f (sort_by le xs)
  map-sort_by le le' [] same = refl
  map-sort_by le le' (x ∷ xs) same =
      ap (insert_by le' (f x)) (map-sort_by le le' xs same)
      ∙ map-insert_by le le' x (sort_by le xs) same
