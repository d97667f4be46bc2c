-- ===== src/Groups/Dependencies/Bounds.antt =====
-- Lists of distinct numbers below a bound are no longer than it.
use infinite_kanban.Prelude.{
  ℕ, zero, suc, ◌+◌, ◌≤◌, ◌<◌, ◌≡◌, refl, false, List, [], ◌∷◌, arith, ◌==◌, nat_eq, contains,
  length, All, Bool-cases, inl, inr,
}
use infinite_kanban.Groups.Dependencies.{drop_mark}

abbrev pub Distinct : List ℕ → Type 0
Distinct [] = Unit
Distinct (x ∷ xs) = (contains xs x ≡ false) × Distinct xs

contains-drop :
    (x k : ℕ) (xs : List ℕ) → contains xs x ≡ false → contains (drop_mark k xs) x ≡ false
contains-drop x k [] h = refl
contains-drop x k (y ∷ ys) h = ground (arith, contains-drop x k ys)

Distinct-drop : (k : ℕ) (xs : List ℕ) → Distinct xs → Distinct (drop_mark k xs)
Distinct-drop k [] d = tt
Distinct-drop k (x ∷ xs) (new, d) = elim (Bool-cases (x == k)) [
  | inl same ↦ rw same (Distinct-drop k xs d)
  | inr other ↦ rw other (contains-drop x k xs new, Distinct-drop k xs d)
]

-- Dropping a mark that is not there changes nothing.
pub drop-absent : (k : ℕ) (xs : List ℕ) → contains xs k ≡ false → drop_mark k xs ≡ xs
drop-absent k [] h = refl
drop-absent k (x ∷ xs) h = ground (arith, drop-absent k xs)

length-drop : (k : ℕ) (xs : List ℕ) → Distinct xs → length xs ≤ length (drop_mark k xs) + 1
length-drop k [] d = omega arith
length-drop k (x ∷ xs) (new, d) = elim (Bool-cases (x == k)) [
  | inl same ↦ rw same (ground (arith, drop-absent k xs))
  | inr other ↦ rw other (omega (arith, length-drop k xs d))
]

All-drop : (n : ℕ) (xs : List ℕ) → All (λ x. x < suc n) xs → All (λ x. x < n) (drop_mark n xs)
All-drop n [] h = tt
All-drop n (x ∷ xs) (lt, h) = elim (Bool-cases (x == n)) [
  | inl same ↦ rw same (All-drop n xs h)
  | inr other ↦ rw other (ground arith, All-drop n xs h)
]

pub pigeonhole : (n : ℕ) (xs : List ℕ) → Distinct xs → All (λ x. x < n) xs → length xs ≤ n
pigeonhole zero [] d h = omega arith
pigeonhole zero (x ∷ xs) d h = absurd (omega arith)
pigeonhole (suc n) xs d h = omega (
  arith,
  length-drop n xs d,
  pigeonhole n (drop_mark n xs) (Distinct-drop n xs d) (All-drop n xs h),
)
