-- ===== src/Server/Table/Keys.antt =====
-- The primary key of a table: each key stands in one row at most.
use blaze_list.Prelude.{
  ℕ, ◌≡◌, refl, Option, none, some, List, [], ◌∷◌, ◌++◌, ◌==◌, arith, if◌then◌else◌,
}
use blaze_list.Server.Table.{select, delete, replace, update, select-delete, select-append_one}

-- What a change of the row does to what is found.
abbrev pub changed {ℓ κ} : {A : Type ℓ} {B : Type κ} → (A → B) → Option A → Option B
changed f none = none
changed f (some a) = some (f a)

module _ {A : Type 0} (key : A → ℕ) where
  abbrev pub IsTable : List A → Type 0
  IsTable [] = Unit
  IsTable (r ∷ rs) = (select key (key r) rs ≡ none) × IsTable rs

  pub select-update :
      (k j : ℕ) (f : A → A) (rs : List A)
      → ((r : A) → key (f r) ≡ key r)
      → select key j (update key k f rs)
        ≡ (if j == k then changed f (select key j rs) else select key j rs)
  unfolding select update
  select-update k j f [] h = ground arith
  select-update k j f (r ∷ rs) h = ground (arith, select-update k j f rs h, h r)

  pub delete-IsTable : (k : ℕ) (rs : List A) → IsTable rs → IsTable (delete key k rs)
  unfolding delete
  delete-IsTable k [] h = tt
  delete-IsTable k (r ∷ rs) h =
      ground (arith, delete-IsTable k rs h.1, select-delete key k (key r) rs)

  append_one-IsTable :
      (rs : List A) (r : A) → IsTable rs → select key (key r) rs ≡ none → IsTable (rs ++ r ∷ [])
  unfolding select
  append_one-IsTable [] r h n = (refl, tt)
  append_one-IsTable (s ∷ rs) r h n =
      ground (arith, append_one-IsTable rs r h.1, select-append_one key (key s) rs r)

  pub replace-IsTable : (r : A) (rs : List A) → IsTable rs → IsTable (replace key r rs)
  unfolding replace
  replace-IsTable r rs h =
      append_one-IsTable (delete key (key r) rs) r (delete-IsTable (key r) rs h)
        (ground (arith, select-delete key (key r) (key r) rs))

  pub update-IsTable :
      (k : ℕ) (f : A → A) (rs : List A)
      → ((r : A) → key (f r) ≡ key r)
      → IsTable rs
      → IsTable (update key k f rs)
  unfolding update
  update-IsTable k f [] h t = tt
  update-IsTable k f (r ∷ rs) h t =
      ground (arith, update-IsTable k f rs h t.1, select-update k (key r) f rs h, h r)
