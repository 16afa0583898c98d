-- ===== src/Base/Search.antt =====
-- What a search of a list finds is one of its elements.
use evgl_api.Base.{
  Bool, true, ◌≡◌, refl, sym, ap, ◌∙◌, some, List, [], ◌∷◌, In, any, find, arith, Bool-cases, inl,
  inr,
}

module _ {A : Type 0} where
  pub any-In : (p : A → Bool) (xs : List A) → any p xs ≡ true → (x : A) × In x xs × (p x ≡ true)
  any-In p [] h = cc
  any-In p (x ∷ xs) h = elim (Bool-cases (p x)) [
    | inl e ↦ (x, inl refl, e)
    | inr e ↦ let ih = any-In p xs (rw e at h) in (ih.0, inr ih.1, ih.2)
  ]

  pub find-In : (p : A → Bool) (xs : List A) (a : A) → find p xs ≡ some a → In a xs × (p a ≡ true)
  find-In p [] a h = cc
  find-In p (x ∷ xs) a h = elim (Bool-cases (p x)) [
    | inl e ↦ let same : x ≡ a = ground arith in (inl (sym same), ap p (sym same) ∙ e)
    | inr e ↦ let ih = find-In p xs a (rw e at h) in (inr ih.0, ih.1)
  ]
