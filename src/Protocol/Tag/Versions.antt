-- ===== src/Protocol/Tag/Versions.antt =====
-- What the constructors of tags promise.
use blaze_list.Prelude.{
  ℕ, ◌+◌, ◌<◌, ◌≡◌, true, Bool-cases, inl, inr, Option, some, List, [], ◌∷◌, arith, ==_refl, ◌==◌,
  leb, le→leb, leb→le, refl, lt→ltb, ◌∙◌, ◌||◌, contains, All,
}
use blaze_list.Prelude.Sort.{IsSorted, sort_by-IsSorted, insert_by, sort_by}
use blaze_list.Prelude.Btree.{IsAscending}
use blaze_list.Prelude.Result.{ok}
use blaze_list.Protocol.Types.{Uuid, Hash, DateTime, Text, Rgb}
use blaze_list.Protocol.NonNegative.{InRange, try_from_u64, to_u64}
use blaze_list.Protocol.Bytes.{sort_ids}
use blaze_list.Protocol.Entity.{verify}
use blaze_list.Protocol.Tag.{
  Tag, tag_entity, expected_hash, dedup, normalize_implies, first_with_implies, successor,
  next_with_implies, from_parts,
}

sort_ids-IsSorted : (xs : List Uuid) → IsSorted leb (sort_ids xs)
unfolding sort_ids
sort_ids-IsSorted = sort_by-IsSorted leb (λ x y h. ground arith) (λ x y z h k. ground arith)

All-dedup :
    (x : ℕ) (xs : List Uuid) → All (λ y. leb x y ≡ true) xs → All (λ y. leb x y ≡ true) (dedup xs)
unfolding dedup
All-dedup x [] h = tt
All-dedup x (y ∷ []) h = h
All-dedup x (y ∷ z ∷ ys) h = elim (Bool-cases (y == z)) [
  | inl p ↦ rw p (All-dedup x (z ∷ ys) h.1)
  | inr p ↦ rw p (h.0, All-dedup x (z ∷ ys) h.1)
]

contains-dedup : (xs : List Uuid) (a : ℕ) → contains (dedup xs) a ≡ contains xs a
unfolding dedup
contains-dedup [] a = refl
contains-dedup (x ∷ []) a = refl
contains-dedup (x ∷ y ∷ ys) a = ground (arith, contains-dedup (y ∷ ys) a)

All-lt : (x y : ℕ) (zs : List Uuid) → x < y → All (λ z. leb y z ≡ true) zs → All (λ z. x < z) zs
All-lt x y [] h a = tt
All-lt x y (z ∷ zs) h a = (ground arith, All-lt x y zs h a.1)

dedup-IsAscending : (xs : List Uuid) → IsSorted leb xs → IsAscending (dedup xs)
unfolding dedup
dedup-IsAscending [] s = tt
dedup-IsAscending (x ∷ []) s = (tt, tt)
dedup-IsAscending (x ∷ y ∷ ys) s = elim (Bool-cases (x == y)) [
  | inl p ↦ rw p (dedup-IsAscending (y ∷ ys) s.1)
  | inr p ↦ rw p (
    All-lt x y (dedup (y ∷ ys)) (ground (arith, leb→le x y s.0.0))
        (All-dedup y (y ∷ ys) (le→leb y y (omega arith), s.1.0)),
    dedup-IsAscending (y ∷ ys) s.1,
  )
]

contains-insert_by :
    (x : ℕ) (ys : List Uuid) (a : ℕ) → contains (insert_by leb x ys) a ≡ (a == x || contains ys a)
unfolding insert_by
contains-insert_by x [] a = refl
contains-insert_by x (y ∷ ys) a = ground (arith, contains-insert_by x ys a)

pub contains-sort_ids : (xs : List Uuid) (a : ℕ) → contains (sort_ids xs) a ≡ contains xs a
unfolding sort_ids sort_by
contains-sort_ids [] a = refl
contains-sort_ids (x ∷ xs) a =
    ground (arith, contains-insert_by x (sort_by leb xs) a, contains-sort_ids xs a)

-- A tag's list of implications ends up strictly ascending and names the same tags.
pub normalize_implies_lem :
    (xs : List Uuid)
    → IsAscending (normalize_implies xs)
      × ((a : ℕ) → contains (normalize_implies xs) a ≡ contains xs a)
unfolding normalize_implies
normalize_implies_lem xs = (
  dedup-IsAscending (sort_ids xs) (sort_ids-IsSorted xs),
  λ a. contains-dedup (sort_ids xs) a ∙ contains-sort_ids xs a,
)

insert_by-front : (x : ℕ) (ys : List Uuid) → All (λ y. x < y) ys → insert_by leb x ys ≡ x ∷ ys
unfolding insert_by
insert_by-front x [] h = refl
insert_by-front x (y ∷ ys) h = ground (arith, lt→ltb x y h.0)

sort_ids_of_IsAscending : (xs : List Uuid) → IsAscending xs → sort_ids xs ≡ xs
unfolding sort_ids sort_by
sort_ids_of_IsAscending [] h = refl
sort_ids_of_IsAscending (x ∷ xs) h = rw (sort_ids_of_IsAscending xs h.1) (insert_by-front x xs h.0)

dedup_of_IsAscending : (xs : List Uuid) → IsAscending xs → dedup xs ≡ xs
unfolding dedup
dedup_of_IsAscending [] h = refl
dedup_of_IsAscending (x ∷ []) h = refl
dedup_of_IsAscending (x ∷ y ∷ ys) h = ground (arith, dedup_of_IsAscending (y ∷ ys) h.1, h.0.0)

pub normalize_implies_of_IsAscending : (xs : List Uuid) → IsAscending xs → normalize_implies xs ≡ xs
unfolding normalize_implies
normalize_implies_of_IsAscending xs h =
    rw (sort_ids_of_IsAscending xs h) (dedup_of_IsAscending xs h)

-- A sealed tag, its implications normalised.
pub record IsSealed (blake3 : List ℕ → Hash) (t : Tag) : Type 0 where
  pub sealed : verify (tag_entity blake3) t ≡ true
  pub normal : IsAscending t.implies

-- The next version of `old`.
pub record IsNextOf (blake3 : List ℕ → Hash) (old new : Tag) : Type 0 where
  pub whole : IsSealed blake3 new
  pub linked : new.ancestor_hash ≡ old.hash
  pub same_id : new.id ≡ old.id
  pub same_created : new.created_at ≡ old.created_at
  pub counted : new.count.value ≡ old.count.value + 1
  pub in_range : InRange new.count

module _ (blake3 : List ℕ → Hash) where
  pub first_with_implies-IsSealed :
      (id : Uuid) (title : Text) (color : Option Rgb) (implies : List Uuid) (created_at : DateTime)
      → IsSealed blake3 (first_with_implies blake3 id title color implies created_at)
  unfolding first_with_implies expected_hash
  first_with_implies-IsSealed id title color implies created_at = record {
    sealed = ==_refl _;
    normal = (normalize_implies_lem implies).0;
  }

  -- Below the largest count `next_with_implies` returns a next version of the tag: sealed, linked by
  -- hash, with the same identity and creation time, one count higher, the given title, color and
  -- time, and a strictly ascending list of the given implications.
  pub next_with_implies-IsNextOf :
      (t : Tag) (title : Text) (color : Option Rgb) (implies : List Uuid) (modified_at : DateTime)
      → t.count.value < 9223372036854775807
      → (u : Tag) × (next_with_implies blake3 t title color implies modified_at ≡ some u)
        × IsNextOf blake3 t u
        × (u.title ≡ title)
        × (u.color ≡ color)
        × (u.modified_at ≡ modified_at)
        × ((a : ℕ) → contains u.implies a ≡ contains implies a)
  unfolding next_with_implies successor expected_hash try_from_u64 to_u64
  next_with_implies-IsNextOf t title color implies modified_at h = (
    successor blake3 t title color implies modified_at (record { value = t.count.value + 1 }),
    rw (le→leb (t.count.value + 1) 9223372036854775807 (omega arith), next_with_implies),
    record {
      whole = record { sealed = ==_refl _; normal = (normalize_implies_lem implies).0 };
      linked = refl;
      same_id = refl;
      same_created = refl;
      counted = refl;
      in_range = omega arith;
    },
    refl,
    refl,
    refl,
    (normalize_implies_lem implies).1,
  )

  -- A sealed tag with normalised implications is read back whole from its stored fields.
  pub from_parts-IsSealed : (t : Tag) → IsSealed blake3 t → from_parts blake3 t ≡ ok t
  unfolding from_parts
  from_parts-IsSealed t h = rw (normalize_implies_of_IsAscending t.implies h.normal, h.sealed)
