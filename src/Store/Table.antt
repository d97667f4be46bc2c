-- ===== src/Store/Table.antt =====
-- A table as a list of rows with a primary key, and the statements that address one row by it.
-- `UPDATE … WHERE id = ? AND c` touches the one row with this key, if `c` holds of it; `.1` is
-- whether `changes` is positive.
use mathlib.Core.Option.{some-injective}
use infinite_kanban.Prelude.{
  In, Bool-cases, sym, map, Option-cases, inl, inr, ◌≡◌, refl, String, Bool, false, Option, none,
  some, List, [], ◌∷◌, arith, ◌==◌, ==_iff, string_eq, if◌then◌else◌,
}
use mathlib.Core.Option

abbrev pub apply_if : {A : Type 0} → (A → Bool) → (A → A) → A → A
apply_if c f r = if c r then f r else r

module _ {A : Type 0} (key : A → String) where
  unfoldable pub get : String → List A → Option A
  get id [] = none
  get id (r ∷ rs) = if key r == id then some r else get id rs

  unfoldable pub update_where : String → (A → Bool) → (A → A) → List A → List A × Bool
  update_where id c f [] = ([], false)
  update_where id c f (r ∷ rs) =
      let (rest, changed) = update_where id c f rs in
      if key r == id then (apply_if c f r ∷ rs, c r) else (r ∷ rest, changed)

  -- `DELETE … WHERE id = ?`
  unfoldable pub delete : String → List A → List A
  delete id [] = []
  delete id (r ∷ rs) = let rest = delete id rs in if key r == id then rest else r ∷ rest

  -- Whether a row with this key is there, and meets a condition.
  abbrev pub holds : (A → Bool) → Option A → Bool
  holds c none = false
  holds c (some r) = c r

  pub changed-update_where :
      (id : String) (c : A → Bool) (f : A → A) (rs : List A)
      → (update_where id c f rs).1 ≡ holds c (get id rs)
  unfolding get update_where
  changed-update_where id c f [] = refl
  changed-update_where id c f (r ∷ rs) = ground (arith, changed-update_where id c f rs)

  pub get-key : (id : String) (rs : List A) (r : A) → get id rs ≡ some r → key r ≡ id
  unfolding get
  get-key id [] r h = cc
  get-key id (x ∷ rs) r h = ground (arith, get-key id rs r, ==_iff (key x) id)

  -- What a read finds after an update that leaves the key alone.
  pub get-update_where :
      (id j : String) (c : A → Bool) (f : A → A) (rs : List A)
      → ((r : A) → key (f r) ≡ key r)
      → get j (update_where id c f rs).0
        ≡ (if id == j then Option.map (apply_if c f) (get j rs) else get j rs)
  unfolding get update_where
  get-update_where id j c f [] keep = ground arith
  get-update_where id j c f (r ∷ rs) keep = ground (
    arith,
    get-update_where id j c f rs keep,
    keep r,
    ==_iff (key r) id,
    ==_iff (key r) j,
    ==_iff id j,
    ==_iff (key (f r)) j,
  )

  pub get-delete :
      (id j : String) (rs : List A) → get j (delete id rs) ≡ (if id == j then none else get j rs)
  unfolding get delete
  get-delete id j [] = ground arith
  get-delete id j (r ∷ rs) =
      ground (arith, get-delete id j rs, ==_iff (key r) id, ==_iff (key r) j, ==_iff id j)

  pub get-map :
      (j : String) (f : A → A) (rs : List A)
      → ((r : A) → key (f r) ≡ key r)
      → get j (map f rs) ≡ Option.map f (get j rs)
  unfolding get
  get-map j f [] keep = refl
  get-map j f (r ∷ rs) keep =
      ground (arith, get-map j f rs keep, keep r, ==_iff (key r) j, ==_iff (key (f r)) j)

  -- Applying a function to the row that an id names, from the row's side.
  pub map_named :
      (id j : String) (g : A → A) (rs : List A)
      → (if id == j then Option.map g (get j rs) else get j rs)
        ≡ Option.map (λ r. if id == key r then g r else r) (get j rs)
  map_named id j g rs = elim (Option-cases (get j rs)) [
    | inl gone ↦ rw gone (ground arith)
    | inr (r, found) ↦ rw found (rw (get-key j rs r found) (ground arith))
  ]

  pub get-In : (id : String) (rs : List A) (r : A) → get id rs ≡ some r → In r rs
  unfolding get
  get-In id [] r h = cc
  get-In id (x ∷ rs) r h = elim (Bool-cases (key x == id)) [
    | inl here ↦ inl (some-injective _ _ (sym (rw here at h)))
    | inr later ↦ inr (get-In id rs r (rw later at h))
  ]
