-- ===== src/Prelude/Members.antt =====
-- Membership of a number in a list, as `slice::contains` decides it.
use Prim.Native.Nat.{ℕ}
use mathlib.Core.Path.{◌≡◌, refl}
use mathlib.Core.Bool.{Bool, true, false, ◌&&◌, ◌||◌}
use mathlib.Core.List.{List, [], ◌∷◌, ◌++◌, reverse}
use mathlib.Core.List.{reverse-cons}
use native.Mathlib.Omega.{arith}
use blaze_list.Prelude.Tests.{◌==◌}
use blaze_list.Prelude.Lists.{filter}

abbrev pub contains : List ℕ → ℕ → Bool
contains [] a = false
contains (x ∷ xs) a = a == x || contains xs a

-- The statement that `contains` decides.
abbrev pub In : ℕ → List ℕ → Type 0
In a xs = contains xs a ≡ true

pub contains-append :
    (xs ys : List ℕ) (a : ℕ) → contains (xs ++ ys) a ≡ (contains xs a || contains ys a)
contains-append [] ys a = refl
contains-append (x ∷ xs) ys a = ground (arith, contains-append xs ys a)

pub contains-reverse : (xs : List ℕ) (a : ℕ) → contains (reverse xs) a ≡ contains xs a
contains-reverse [] a = refl
contains-reverse (x ∷ xs) a =
    rw reverse-cons (ground (arith, contains-append (reverse xs) (x ∷ []) a, contains-reverse xs a))

pub contains-filter :
    (p : ℕ → Bool) (xs : List ℕ) (a : ℕ) → contains (filter p xs) a ≡ (contains xs a && p a)
contains-filter p [] a = refl
contains-filter p (x ∷ xs) a = ground (arith, contains-filter p xs a)

pub nil_of_empty : (xs : List ℕ) → ((x : ℕ) → contains xs x ≡ false) → xs ≡ []
nil_of_empty [] h = refl
nil_of_empty (x ∷ xs) h = absurd (ground (arith, h x))
