-- ===== src/Protocol/Card/Versions.antt =====
-- What the constructors of cards promise.
use blaze_list.Prelude.{
  ℕ, ◌+◌, ◌<◌, ◌≤◌, ◌≡◌, Bool, true, Option, some, none, le→leb, refl, ◌↔◌, List, arith, ==_refl,
}
use blaze_list.Prelude.Int.{ℤ}
use blaze_list.Prelude.Result.{ok}
use blaze_list.Protocol.Types.{Uuid, Hash, DateTime, Text}
use blaze_list.Protocol.NonNegative.{InRange, try_from_u64, to_u64}
use blaze_list.Protocol.Bytes.{sort_ids}
use blaze_list.Protocol.Entity.{verify}
use blaze_list.Protocol.Card.{Card, card_entity, expected_hash, first, next, successor, from_parts}

-- The next version of `old`: sealed, with the same identity and creation time, one count higher, and
-- its ancestor hash the hash of `old`.
pub record IsNextOf (blake3 : List ℕ → Hash) (old new : Card) : Type 0 where
  pub sealed : verify (card_entity blake3) new ≡ true
  pub linked : new.ancestor_hash ≡ old.hash
  pub same_id : new.id ≡ old.id
  pub same_created : new.created_at ≡ old.created_at
  pub counted : new.count.value ≡ old.count.value + 1
  pub in_range : InRange new.count

module _ (blake3 : List ℕ → Hash) where
  pub first-verify :
      (id : Uuid) (content : Text) (priority : ℤ) (tags : List Uuid) (blazed : Bool)
      (created_at : DateTime) (due_date : Option DateTime)
      → verify
          (card_entity blake3)
          (first blake3 id content priority tags blazed created_at due_date)
        ≡ true
  unfolding first expected_hash
  first-verify id content priority tags blazed created_at due_date = ==_refl _

  -- Below the largest count `next` returns a version, and it is a next version of the card with
  -- the given content, priority, blaze flag, time and due date, its tags sorted.
  pub next-IsNextOf :
      (c : Card) (content : Text) (priority : ℤ) (tags : List Uuid) (blazed : Bool)
      (modified_at : DateTime) (due_date : Option DateTime)
      → c.count.value < 9223372036854775807
      → (d : Card) × (next blake3 c content priority tags blazed modified_at due_date ≡ some d)
        × IsNextOf blake3 c d
        × (d.content ≡ content)
        × (d.priority ≡ priority)
        × (d.tags ≡ sort_ids tags)
        × (d.blazed ≡ blazed)
        × (d.modified_at ≡ modified_at)
        × (d.due_date ≡ due_date)
  unfolding next successor expected_hash try_from_u64 to_u64
  next-IsNextOf c content priority tags blazed modified_at due_date h = (
    successor blake3 c content priority tags blazed modified_at due_date
        (record { value = c.count.value + 1 }),
    rw (le→leb (c.count.value + 1) 9223372036854775807 (omega arith), next),
    record {
      sealed = ==_refl _;
      linked = refl;
      same_id = refl;
      same_created = refl;
      counted = refl;
      in_range = omega arith;
    },
    refl,
    refl,
    refl,
    refl,
    refl,
    refl,
  )

  -- At the largest count `next` panics.
  pub next_overflow :
      (c : Card) (content : Text) (priority : ℤ) (tags : List Uuid) (blazed : Bool)
      (modified_at : DateTime) (due_date : Option DateTime)
      → 9223372036854775807 ≤ c.count.value
      → next blake3 c content priority tags blazed modified_at due_date ≡ none
  unfolding next try_from_u64 to_u64
  next_overflow c content priority tags blazed modified_at due_date h = ground arith

  -- Only a card whose hash is the hash of its fields is read back, and it is read back whole.
  pub from_parts-iff_verify :
      (c d : Card)
      → (from_parts blake3 c ≡ ok d) ↔ ((verify (card_entity blake3) c ≡ true) × (c ≡ d))
  unfolding from_parts
  from_parts-iff_verify c d = ground arith
