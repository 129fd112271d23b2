-- ===== src/Prelude/Btree.antt =====
-- `BTreeSet` and `BTreeMap` keyed by numbers: ascending lists, and what their operations keep.
use Prim.Native.Nat.{ℕ, ◌<◌}
use mathlib.Core.Path.{◌≡◌, refl}
use mathlib.Core.Bool.{◌||◌}
use mathlib.Core.Logic.{◌⊎◌}
use mathlib.Core.Option.{Option, none, some}
use mathlib.Core.List.{List, [], ◌∷◌, map}
use native.Mathlib.Omega.{arith}
use blaze_list.Prelude.Tests.{ltb, ◌==◌, if◌then◌else◌}
use blaze_list.Prelude.Lists.{All}
use blaze_list.Prelude.Members.{contains, In}

-- Strictly ascending, so without duplicates.
abbrev pub IsAscending : List ℕ → Type 0
IsAscending [] = Unit
IsAscending (x ∷ xs) = All (λ y. x < y) xs × IsAscending xs

-- `BTreeSet::insert`
unfoldable pub set_insert : ℕ → List ℕ → List ℕ
set_insert x [] = x ∷ []
set_insert x (y ∷ ys) =
    if ltb x y then x ∷ y ∷ ys else if x == y then y ∷ ys else y ∷ set_insert x ys

-- `iter().copied().collect::<BTreeSet<_>>()`
unfoldable pub set_of : List ℕ → List ℕ
unfolding set_insert
set_of [] = []
set_of (x ∷ xs) = set_insert x (set_of xs)

pub contains-set_insert :
    (x : ℕ) (s : List ℕ) (a : ℕ) → contains (set_insert x s) a ≡ (a == x || contains s a)
unfolding set_insert
contains-set_insert x [] a = refl
contains-set_insert x (y ∷ ys) a = ground (arith, contains-set_insert x ys a)

pub set_insert-cases : (x : ℕ) (s : List ℕ) (a : ℕ) → In a (set_insert x s) → (a ≡ x) ⊎ In a s
set_insert-cases x s a m = ground (arith, contains-set_insert x s a)

pub contains-set_of : (xs : List ℕ) (a : ℕ) → contains (set_of xs) a ≡ contains xs a
unfolding set_of
contains-set_of [] a = refl
contains-set_of (x ∷ xs) a =
    ground (arith, contains-set_insert x (set_of xs) a, contains-set_of xs a)

All-set_insert :
    (z x : ℕ) (s : List ℕ) → z < x → All (λ y. z < y) s → All (λ y. z < y) (set_insert x s)
unfolding set_insert
All-set_insert z x [] h a = (h, tt)
All-set_insert z x (y ∷ ys) h a = ground (arith, All-set_insert z x ys h a.1)

All-lt_trans : (x y : ℕ) (s : List ℕ) → x < y → All (λ z. y < z) s → All (λ z. x < z) s
All-lt_trans x y [] h a = tt
All-lt_trans x y (z ∷ s) h a = (omega arith, All-lt_trans x y s h a.1)

pub set_insert-IsAscending : (x : ℕ) (s : List ℕ) → IsAscending s → IsAscending (set_insert x s)
unfolding set_insert
set_insert-IsAscending x [] h = (tt, tt)
set_insert-IsAscending x (y ∷ ys) h =
    ground (arith, set_insert-IsAscending x ys h.1, All-set_insert y x ys, All-lt_trans x y ys)

-- `BTreeMap`
module _ {ℓ} {V : Type ℓ} where
  abbrev pub keys : List (ℕ × V) → List ℕ
  keys = map (λ e. e.0)

  unfoldable pub map_get : ℕ → List (ℕ × V) → Option V
  map_get k [] = none
  map_get k ((j, v) ∷ m) = if k == j then some v else map_get k m

  unfoldable pub map_insert : ℕ → V → List (ℕ × V) → List (ℕ × V)
  map_insert k v [] = (k, v) ∷ []
  map_insert k v ((j, w) ∷ m) =
      if ltb k j
      then (k, v) ∷ (j, w) ∷ m
      else if k == j
      then (k, v) ∷ m
      else (j, w) ∷ map_insert k v m

  unfoldable pub map_remove : ℕ → List (ℕ × V) → List (ℕ × V)
  map_remove k [] = []
  map_remove k ((j, w) ∷ m) = if k == j then m else (j, w) ∷ map_remove k m

  pub map_get-map_insert :
      (k j : ℕ) (v : V) (m : List (ℕ × V))
      → map_get j (map_insert k v m) ≡ (if j == k then some v else map_get j m)
  unfolding map_get map_insert
  map_get-map_insert k j v [] = refl
  map_get-map_insert k j v ((i, w) ∷ m) = ground (arith, map_get-map_insert k j v m)

  -- A key that is below all others is not found among them.
  pub map_get_below : (k : ℕ) (m : List (ℕ × V)) → All (λ j. k < j) (keys m) → map_get k m ≡ none
  unfolding map_get
  map_get_below k [] h = refl
  map_get_below k ((j, v) ∷ m) h = ground (arith, map_get_below k m h.1)

  pub map_get-map_remove :
      (k j : ℕ) (m : List (ℕ × V))
      → IsAscending (keys m)
      → map_get j (map_remove k m) ≡ (if j == k then none else map_get j m)
  unfolding map_get map_remove
  map_get-map_remove k j [] h = ground arith
  map_get-map_remove k j ((i, w) ∷ m) h =
      ground (arith, map_get-map_remove k j m h.1, map_get_below i m h.0)

  All-map_insert :
      (z k : ℕ) (v : V) (m : List (ℕ × V))
      → z < k
      → All (λ y. z < y) (keys m)
      → All (λ y. z < y) (keys (map_insert k v m))
  unfolding map_insert
  All-map_insert z k v [] h a = (h, tt)
  All-map_insert z k v ((j, w) ∷ m) h a = ground (arith, All-map_insert z k v m h a.1)

  pub map_insert-IsAscending :
      (k : ℕ) (v : V) (m : List (ℕ × V))
      → IsAscending (keys m)
      → IsAscending (keys (map_insert k v m))
  unfolding map_insert
  map_insert-IsAscending k v [] h = (tt, tt)
  map_insert-IsAscending k v ((j, w) ∷ m) h =
      ground
        (arith, map_insert-IsAscending k v m h.1, All-map_insert j k v m, All-lt_trans k j (keys m))

  All-map_remove :
      (z k : ℕ) (m : List (ℕ × V))
      → All (λ y. z < y) (keys m)
      → All (λ y. z < y) (keys (map_remove k m))
  unfolding map_remove
  All-map_remove z k [] a = tt
  All-map_remove z k ((j, w) ∷ m) a = ground (arith, All-map_remove z k m a.1)

  pub map_remove-IsAscending :
      (k : ℕ) (m : List (ℕ × V)) → IsAscending (keys m) → IsAscending (keys (map_remove k m))
  unfolding map_remove
  map_remove-IsAscending k [] h = tt
  map_remove-IsAscending k ((j, w) ∷ m) h =
      ground (arith, map_remove-IsAscending k m h.1, All-map_remove j k m h.0)

  -- Maps that find the same are the same.
  pub map_get-inj :
      (m n : List (ℕ × V))
      → IsAscending (keys m)
      → IsAscending (keys n)
      → ((j : ℕ) → map_get j m ≡ map_get j n)
      → m ≡ n
  unfolding map_get
  map_get-inj [] [] a b h = refl
  map_get-inj [] ((k, w) ∷ n) a b h = absurd (ground (arith, h k))
  map_get-inj ((i, v) ∷ m) [] a b h = absurd (ground (arith, h i))
  map_get-inj ((i, v) ∷ m) ((k, w) ∷ n) a b h =
      let low = map_get_below i n in
      let high = map_get_below k m in
      let same : i ≡ k =
        ground (arith, h i, h k, All-lt_trans i k (keys n), All-lt_trans k i (keys m), low, high) in
      let value : v ≡ w = ground (arith, h i) in
      let rest =
        map_get-inj m n a.1 b.1
          λ j. ground (arith, h j, map_get_below i m a.0, map_get_below k n b.0) in
      cc
