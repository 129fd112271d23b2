-- ===== src/Server/Table.antt =====
-- An SQL table with a numeric key: its rows in the order of insertion.
pub mod Keys
pub mod Distinct
use blaze_list.Prelude.{ℕ, ◌≡◌, Option, none, some, List, [], ◌∷◌, ◌++◌, ◌==◌, arith, if◌then◌else◌}

module _ {A : Type 0} (key : A → ℕ) where
  -- `SELECT … WHERE id = ?`
  unfoldable pub select : ℕ → List A → Option A
  select k [] = none
  select k (r ∷ rs) = if key r == k then some r else select k rs

  -- `DELETE … WHERE id = ?`
  unfoldable pub delete : ℕ → List A → List A
  delete k [] = []
  delete k (r ∷ rs) = let rest = delete k rs in if key r == k then rest else r ∷ rest

  -- `INSERT OR REPLACE`
  unfoldable pub replace : A → List A → List A
  replace r rs = delete (key r) rs ++ r ∷ []

  -- `UPDATE … WHERE id = ?`
  unfoldable pub update : ℕ → (A → A) → List A → List A
  update k f [] = []
  update k f (r ∷ rs) = (if key r == k then f r else r) ∷ update k f rs

  pub select-append_one :
      (k : ℕ) (rs : List A) (r : A)
      → select k (rs ++ r ∷ [])
        ≡ elim (select k rs) [ none ↦ (if key r == k then some r else none) | some s ↦ some s ]
  unfolding select
  select-append_one k [] r = ground arith
  select-append_one k (s ∷ rs) r = ground (arith, select-append_one k rs r)

  pub select-delete :
      (k j : ℕ) (rs : List A) → select j (delete k rs) ≡ (if j == k then none else select j rs)
  unfolding select delete
  select-delete k j [] = ground arith
  select-delete k j (r ∷ rs) = ground (arith, select-delete k j rs)

  pub select-replace :
      (j : ℕ) (r : A) (rs : List A)
      → select j (replace r rs) ≡ (if j == key r then some r else select j rs)
  unfolding replace
  select-replace j r rs =
      ground (arith, select-append_one j (delete (key r) rs) r, select-delete (key r) j rs)
