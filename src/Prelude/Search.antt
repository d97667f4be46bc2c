-- ===== src/Prelude/Search.antt =====
-- What `find`, `filter`, `any` and `all` return, in terms of membership.
use mathlib.Core.Path.{◌≡◌, refl, ap, sym}
use mathlib.Core.Bool.{Bool, true, false, ◌||◌}
use mathlib.Core.Option.{none, some}
use mathlib.Core.Logic.{inl, inr}
use mathlib.Core.List.{List, [], ◌∷◌, ◌++◌}
use native.Mathlib.Omega.{arith}
use infinite_kanban.Prelude.Tests.{Eq, ◌==◌, Bool-cases, ==_iff}
use infinite_kanban.Prelude.Lists.{filter, find, any, all, head?, In, contains}

module _ {A : Type 0} (p : A → Bool) where
  pub find_sound : (xs : List A) {x : A} → find p xs ≡ some x → (p x ≡ true) × In x xs
  find_sound [] h = cc
  find_sound (y ∷ xs) h = elim (Bool-cases (p y)) [
    | inl yes_y ↦ ground (arith, yes_y, h)
    | inr no_y ↦ let (px, m) = find_sound xs (rw no_y at h) in (px, inr m)
  ]

  pub find-none : (xs : List A) {x : A} → find p xs ≡ none → In x xs → p x ≡ false
  find-none [] h m = elim m [ ]
  find-none (y ∷ xs) {x} h m = elim (Bool-cases (p y)) [
    | inl yes_y ↦ ground (arith, yes_y, h)
    | inr no_y ↦ elim m [ inl e ↦ rw e no_y | inr m' ↦ find-none xs (rw no_y at h) m' ]
  ]

  pub filter_sound : (xs : List A) {x : A} → In x (filter p xs) → (p x ≡ true) × In x xs
  filter_sound [] m = elim m [ ]
  filter_sound (y ∷ xs) m = elim (Bool-cases (p y)) [
    | inl yes_y ↦ elim (rw yes_y at m) [
      | inl e ↦ (rw e yes_y, inl e)
      | inr m' ↦ let (px, k) = filter_sound xs m' in (px, inr k)
    ]
    | inr no_y ↦ let (px, k) = filter_sound xs (rw no_y at m) in (px, inr k)
  ]

  pub filter-complete : (xs : List A) {x : A} → p x ≡ true → In x xs → In x (filter p xs)
  filter-complete [] px m = elim m [ ]
  filter-complete (y ∷ xs) {x} px m = elim (Bool-cases (p y)) [
    | inl yes_y ↦ rw yes_y (elim m [ inl e ↦ inl e | inr k ↦ inr (filter-complete xs px k) ])
    | inr no_y ↦ elim m [
      | inl e ↦ ground (arith, ap p e)
      | inr k ↦ rw no_y (filter-complete xs px k)
    ]
  ]

  pub all_sound : (xs : List A) {x : A} → all p xs ≡ true → In x xs → p x ≡ true
  all_sound [] h m = elim m [ ]
  all_sound (y ∷ xs) h m = elim m [
    | inl e ↦ rw e (ground arith)
    | inr k ↦ all_sound xs (ground arith) k
  ]

  pub any_sound : (xs : List A) → any p xs ≡ true → (x : A) × In x xs × (p x ≡ true)
  any_sound [] h = cc
  any_sound (y ∷ xs) h = elim (Bool-cases (p y)) [
    | inl yes_y ↦ (y, inl refl, yes_y)
    | inr no_y ↦ let (x, m, px) = any_sound xs (ground arith) in (x, inr m, px)
  ]

  pub any-false : (xs : List A) {x : A} → any p xs ≡ false → In x xs → p x ≡ false
  any-false [] h m = elim m [ ]
  any-false (y ∷ xs) h m = elim m [
    | inl e ↦ rw e (ground arith)
    | inr k ↦ any-false xs (ground arith) k
  ]

module _ {A : Type 0} where
  pub head?-In : (xs : List A) {x : A} → head? xs ≡ some x → In x xs
  head?-In [] h = cc
  head?-In (y ∷ xs) h = inl (ground arith)

  pub head?-none : (xs : List A) (x : A) → head? xs ≡ none → In x xs → ⊥
  head?-none [] x h m = elim m [ ]
  head?-none (y ∷ xs) x h m = cc

module _ {A : Type 0} ⦃e : Eq A⦄ where
  pub contains-In : (xs : List A) (a : A) → contains xs a ≡ true → In a xs
  contains-In [] a h = cc
  contains-In (x ∷ xs) a h = elim (Bool-cases (x == a)) [
    | inl same ↦ inl (sym ((==_iff x a).0 same))
    | inr other ↦ inr (contains-In xs a (ground arith))
  ]

  pub In-contains : (xs : List A) (a : A) → In a xs → contains xs a ≡ true
  In-contains [] a m = elim m [ ]
  In-contains (x ∷ xs) a m = elim m [
    | inl same ↦ ground (arith, (==_iff x a).1 (sym same))
    | inr k ↦ ground (arith, In-contains xs a k)
  ]

pub contains-append :
    {A : Type 0} ⦃e : Eq A⦄ (xs ys : List A) (a : A)
    → contains (xs ++ ys) a ≡ (contains xs a || contains ys a)
contains-append [] ys a = refl
contains-append (x ∷ xs) ys a = ground (arith, contains-append xs ys a)
