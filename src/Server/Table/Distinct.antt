-- ===== src/Server/Table/Distinct.antt =====
-- A column of a table whose values differ from row to row, as `UNIQUE` asks.
use blaze_list.Prelude.{ℕ, ◌≡◌, false, not, ◌&&◌, ◌==◌, none, List, [], ◌∷◌, ◌++◌, arith, All, find}
use blaze_list.Prelude.Int.{ℤ, eqb_ℤ}
use blaze_list.Server.Table.{delete, replace, update}

module _ {A : Type 0} (key : A → ℕ) (val : A → ℤ) where
  -- No row has the value.
  abbrev pub Lacks : ℤ → List A → Type 0
  Lacks x = All (λ s. eqb_ℤ (val s) x ≡ false)

  abbrev pub IsDistinct : List A → Type 0
  IsDistinct [] = Unit
  IsDistinct (r ∷ rs) = Lacks (val r) rs × IsDistinct rs

  delete-Lacks : (k : ℕ) (x : ℤ) (rs : List A) → Lacks x rs → Lacks x (delete key k rs)
  unfolding delete
  delete-Lacks k x [] h = tt
  delete-Lacks k x (r ∷ rs) h = ground (arith, delete-Lacks k x rs h.1)

  pub delete-IsDistinct : (k : ℕ) (rs : List A) → IsDistinct rs → IsDistinct (delete key k rs)
  unfolding delete
  delete-IsDistinct k [] h = tt
  delete-IsDistinct k (r ∷ rs) h =
      ground (arith, delete-IsDistinct k rs h.1, delete-Lacks k (val r) rs h.0)

  append_one-Lacks :
      (x : ℤ) (rs : List A) (r : A) → Lacks x rs → eqb_ℤ (val r) x ≡ false → Lacks x (rs ++ r ∷ [])
  append_one-Lacks x [] r h e = (e, tt)
  append_one-Lacks x (s ∷ rs) r h e = (h.0, append_one-Lacks x rs r h.1 e)

  append_one-IsDistinct :
      (rs : List A) (r : A) → IsDistinct rs → Lacks (val r) rs → IsDistinct (rs ++ r ∷ [])
  append_one-IsDistinct [] r h l = (tt, tt)
  append_one-IsDistinct (s ∷ rs) r h l =
      (append_one-Lacks (val s) rs r h.0 (ground arith), append_one-IsDistinct rs r h.1 l.1)

  -- A value that no other key has stays apart when its row is replaced.
  Lacks-find :
      (k : ℕ) (x : ℤ) (rs : List A)
      → find (λ r. eqb_ℤ (val r) x && not (key r == k)) rs ≡ none
      → Lacks x (delete key k rs)
  unfolding delete
  Lacks-find k x [] h = tt
  Lacks-find k x (r ∷ rs) h = ground (arith, Lacks-find k x rs)

  pub replace-IsDistinct :
      (r : A) (rs : List A)
      → find (λ s. eqb_ℤ (val s) (val r) && not (key s == key r)) rs ≡ none
      → IsDistinct rs
      → IsDistinct (replace key r rs)
  unfolding replace
  replace-IsDistinct r rs f h =
      append_one-IsDistinct (delete key (key r) rs) r (delete-IsDistinct (key r) rs h)
        (Lacks-find (key r) (val r) rs f)

  update-Lacks :
      (k : ℕ) (f : A → A) (x : ℤ) (rs : List A)
      → ((r : A) → val (f r) ≡ val r)
      → Lacks x rs
      → Lacks x (update key k f rs)
  unfolding update
  update-Lacks k f x [] h l = tt
  update-Lacks k f x (r ∷ rs) h l = ground (arith, update-Lacks k f x rs h l.1, h r)

  pub update-IsDistinct :
      (k : ℕ) (f : A → A) (rs : List A)
      → ((r : A) → val (f r) ≡ val r)
      → IsDistinct rs
      → IsDistinct (update key k f rs)
  unfolding update
  update-IsDistinct k f [] h d = tt
  update-IsDistinct k f (r ∷ rs) h d =
      ground (arith, update-IsDistinct k f rs h d.1, update-Lacks k f (val r) rs h d.0, h r)
