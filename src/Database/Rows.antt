-- ===== src/Database/Rows.antt =====
-- A table as its rows under a text key, for the statements `WHERE id = $1`.
use kariz.Prelude.{
  ◌≡◌, refl, String, Option, none, some, List, [], ◌∷◌, ◌++◌, arith, eq_iff, ◌=ₛ◌, if◌then◌else◌,
  Bool, true, false, ◌&&◌, ltb, length, select, Bool-cases, inl, inr,
}

abbrev pub map_row {ℓ} : {R : Type ℓ} → (R → R) → Option R → Option R
map_row f none = none
map_row f (some r) = some (f r)

-- A row, if it passes a test.
abbrev pub keep {ℓ} : {R : Type ℓ} → (R → Bool) → Option R → Option R
keep p none = none
keep p (some r) = if p r then some r else none

abbrev pub absent {ℓ} : {R : Type ℓ} → Option R → Bool
absent none = true
absent (some r) = false

module _ {R : Type 0} (key : R → String) where
  unfoldable pub find : String → List R → Option R
  find id [] = none
  find id (r ∷ rows) = if key r =ₛ id then some r else find id rows

  unfoldable pub modify : String → (R → R) → List R → List R
  modify id f [] = []
  modify id f (r ∷ rows) = (if key r =ₛ id then f r else r) ∷ modify id f rows

  -- A change of the row `id` that keeps its key is seen under `id`, and under no other key.
  pub find-modify :
      (j id : String) (f : R → R) (rows : List R)
      → ((r : R) → key (f r) ≡ key r)
      → find j (modify id f rows) ≡ (if id =ₛ j then map_row f (find j rows) else find j rows)
  unfolding find modify
  find-modify j id f [] keeps = ground arith
  find-modify j id f (r ∷ rows) keeps = ground (
    arith,
    keeps r,
    find-modify j id f rows keeps,
    eq_iff (key r) id,
    eq_iff (key r) j,
    eq_iff id j,
  )

  pub find-append :
      (j : String) (rows : List R) (s : R)
      → find (key s) rows ≡ none
      → find j (rows ++ s ∷ []) ≡ (if key s =ₛ j then some s else find j rows)
  unfolding find
  find-append j [] s h = refl
  find-append j (r ∷ rows) s h =
      ground
        (arith, find-append j rows s, eq_iff (key r) (key s), eq_iff (key r) j, eq_iff (key s) j)

  pub key-find : (id : String) (rows : List R) (r : R) → find id rows ≡ some r → key r ≡ id
  unfolding find
  key-find id [] r h = cc
  key-find id (s ∷ rows) r h = ground (arith, key-find id rows r, eq_iff (key s) id)

  -- No two rows share the key.
  unfoldable pub distinct : List R → Bool
  distinct [] = true
  distinct (r ∷ rows) = absent (find (key r) rows) && distinct rows

  pub find-select :
      (p : R → Bool) (j : String) (rows : List R)
      → distinct rows ≡ true
      → find j (select p rows) ≡ keep p (find j rows)
  unfolding find distinct
  find-select p j [] h = refl
  find-select p j (r ∷ rows) h = ground (arith, find-select p j rows, eq_iff (key r) j)

  pub distinct-select :
      (p : R → Bool) (rows : List R) → distinct rows ≡ true → distinct (select p rows) ≡ true
  unfolding distinct
  distinct-select p [] h = refl
  distinct-select p (r ∷ rows) h =
      ground (arith, distinct-select p rows, find-select p (key r) rows)

  pub distinct-append :
      (rows : List R) (s : R)
      → find (key s) rows ≡ none
      → distinct rows ≡ true
      → distinct (rows ++ s ∷ []) ≡ true
  unfolding find distinct
  distinct-append [] s h d = refl
  distinct-append (r ∷ rows) s h d = ground (
    arith,
    distinct-append rows s,
    find-append (key r) rows s,
    eq_iff (key r) (key s),
    eq_iff (key s) (key r),
  )

  pub distinct-modify :
      (id : String) (f : R → R) (rows : List R)
      → ((r : R) → key (f r) ≡ key r)
      → distinct rows ≡ true
      → distinct (modify id f rows) ≡ true
  unfolding modify distinct
  distinct-modify id f [] keeps d = refl
  distinct-modify id f (r ∷ rows) keeps d = ground (
    arith,
    keeps r,
    distinct-modify id f rows keeps,
    find-modify (key r) id f rows keeps,
    eq_iff (key r) id,
    eq_iff id (key r),
  )

  -- A row that is selected is found under its key.
  pub find-counted :
      (p : R → Bool) (rows : List R)
      → distinct rows ≡ true
      → ltb 0 (length (select p rows)) ≡ true
      → (j : String) × ((r : R) × ((find j rows ≡ some r) × (p r ≡ true)))
  unfolding find distinct
  find-counted p [] d h = ground arith
  find-counted p (r ∷ rows) d h = elim (Bool-cases (p r)) [
    | inl e ↦ (key r, (r, (ground (arith, eq_iff (key r) (key r)), e)))
    | inr e ↦
        let later = find-counted p rows (ground arith) (ground arith) in
        let rest = later.1.1.0 in
        (later.0, (later.1.0, (ground (arith, eq_iff (key r) later.0), later.1.1.1)))
  ]
