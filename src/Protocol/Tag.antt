-- ===== src/Protocol/Tag.antt =====
-- protocol/src/tag/tag.rs
pub mod Versions
use blaze_list.Prelude.{ℕ, ◌+◌, Bool, Option, none, some, List, [], ◌∷◌, ◌==◌, if◌then◌else◌}
use blaze_list.Prelude.Result.{Result, ok, err}
use blaze_list.Protocol.Types.{Uuid, Hash, DateTime, Text, Rgb, zero_hash}
use blaze_list.Protocol.NonNegative.{NonNegativeI64, to_i64, to_u64, try_from_u64}
use blaze_list.Protocol.Bytes.{canonical_tag_hash, sort_ids}
use blaze_list.Protocol.Entity.{Entity, verify, HashVerificationError, hash_verification_error}

pub record Tag : Type 0 where
  pub id : Uuid
  pub title : Text
  pub color : Option Rgb
  pub created_at : DateTime
  pub modified_at : DateTime
  pub count : NonNegativeI64
  pub ancestor_hash : Hash
  pub hash : Hash
  pub implies : List Uuid

-- `Vec::dedup`: of equal neighbours the first stays.
unfoldable pub dedup : List Uuid → List Uuid
dedup [] = []
dedup (x ∷ []) = x ∷ []
dedup (x ∷ y ∷ ys) = let rest = dedup (y ∷ ys) in if x == y then rest else x ∷ rest

unfoldable pub normalize_implies : List Uuid → List Uuid
normalize_implies implies = dedup (sort_ids implies)

module _ (blake3 : List ℕ → Hash) where
  unfoldable pub expected_hash : Tag → Hash
  expected_hash t =
      canonical_tag_hash blake3 t.id t.title t.created_at t.modified_at (to_i64 t.count)
        t.ancestor_hash t.color t.implies

  -- `impl Entity for Tag`
  abbrev pub tag_entity : Entity Tag
  tag_entity = record {
    id = λ t. t.id;
    created_at = λ t. t.created_at;
    modified_at = λ t. t.modified_at;
    count = λ t. t.count;
    ancestor_hash = λ t. t.ancestor_hash;
    hash = λ t. t.hash;
    expected_hash = expected_hash;
  }

  -- Reconstruction from stored fields, the implications normalised first.
  unfoldable pub from_parts : Tag → Result HashVerificationError Tag
  from_parts t =
      let tag = record t { implies = normalize_implies t.implies } in
      if verify tag_entity tag then ok tag else err hash_verification_error

  -- `tag.hash = tag.expected_hash()`
  unfoldable pub seal : Tag → Tag
  seal t = record t { hash = expected_hash t }

  unfoldable pub first_with_implies : Uuid → Text → Option Rgb → List Uuid → DateTime → Tag
  unfolding seal
  first_with_implies id title color implies created_at = seal (record {
    id = id;
    title = title;
    color = color;
    created_at = created_at;
    modified_at = created_at;
    count = record { value = 1 };
    ancestor_hash = zero_hash;
    hash = zero_hash;
    implies = normalize_implies implies;
  })

  unfoldable pub first : Uuid → Text → Option Rgb → DateTime → Tag
  first id title color created_at = first_with_implies id title color [] created_at

  -- The version that `next_with_implies` builds once the count is known.
  unfoldable pub successor : Tag → Text → Option Rgb → List Uuid → DateTime → NonNegativeI64 → Tag
  unfolding seal
  successor self title color implies modified_at count = seal (record {
    id = self.id;
    title = title;
    color = color;
    created_at = self.created_at;
    modified_at = modified_at;
    count = count;
    ancestor_hash = self.hash;
    hash = zero_hash;
    implies = normalize_implies implies;
  })

  -- `none` is the panic of `unwrap` where the count is past the range.
  unfoldable pub next_with_implies : Tag → Text → Option Rgb → List Uuid → DateTime → Option Tag
  next_with_implies self title color implies modified_at =
      elim (try_from_u64 (to_u64 self.count + 1)) [
        | err e ↦ none
        | ok count ↦ some (successor self title color implies modified_at count)
      ]

  unfoldable pub next : Tag → Text → Option Rgb → DateTime → Option Tag
  next self title color modified_at = next_with_implies self title color self.implies modified_at
