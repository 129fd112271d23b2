-- ===== src/Client/Sync/Cards.antt =====
-- What applying a change set to the cards leaves, in which order; and the offline queue.
use blaze_list.Prelude.{◌≡◌, refl, ◌∙◌, Bool, true, List, [], ◌∷◌, All, contains, arith}
use blaze_list.Prelude.Int.{ℤ, leb_ℤ, ◌≤ℤ◌}
use blaze_list.Prelude.Btree.{keys}
use blaze_list.Prelude.Sort.{insert_by, sort_by, sort_by-IsSorted, IsSorted, All-sort_by}
use blaze_list.Protocol.Types.{Uuid}
use blaze_list.Protocol.Card.{Card}
use blaze_list.Protocol.Messages.{ChangeSet}
use blaze_list.Client.Sync.{values, merged, card_id, apply_card_changeset}
use blaze_list.Client.Sync.Laws.{
  index_get, IsKeyed, merged-IsKeyed, merged-IsOwn, index_get-merged, held, HasDistinctIds,
  held-values, values-HasDistinctIds, expected,
}

module _ {A : Type 0} (le : Uuid × A → Uuid × A → Bool) where
  keys-insert_by :
      (e : Uuid × A) (m : List (Uuid × A)) (j : Uuid)
      → contains (keys (insert_by le e m)) j ≡ contains (keys (e ∷ m)) j
  unfolding insert_by
  keys-insert_by e [] j = refl
  keys-insert_by e (f ∷ m) j = ground (arith, keys-insert_by e m j)

  insert_by-IsKeyed :
      (e : Uuid × A) (m : List (Uuid × A)) → IsKeyed (e ∷ m) → IsKeyed (insert_by le e m)
  unfolding insert_by
  insert_by-IsKeyed e [] h = h
  insert_by-IsKeyed e ((i, w) ∷ m) h = ground (arith, keys-insert_by e m i, insert_by-IsKeyed e m)

  index_get-insert_by :
      (j : Uuid) (e : Uuid × A) (m : List (Uuid × A))
      → IsKeyed (e ∷ m)
      → index_get j (insert_by le e m) ≡ index_get j (e ∷ m)
  unfolding insert_by index_get
  index_get-insert_by j e [] h = refl
  index_get-insert_by j e ((i, w) ∷ m) h = ground (arith, index_get-insert_by j e m)

  keys-sort_by :
      (m : List (Uuid × A)) (j : Uuid) → contains (keys (sort_by le m)) j ≡ contains (keys m) j
  unfolding sort_by
  keys-sort_by [] j = refl
  keys-sort_by (e ∷ m) j = ground (arith, keys-insert_by e (sort_by le m) j, keys-sort_by m j)

  sort_by-IsKeyed : (m : List (Uuid × A)) → IsKeyed m → IsKeyed (sort_by le m)
  unfolding sort_by
  sort_by-IsKeyed [] h = tt
  sort_by-IsKeyed ((i, w) ∷ m) h =
      insert_by-IsKeyed (i, w) (sort_by le m) (rw (keys-sort_by m i) h.0, sort_by-IsKeyed m h.1)

  index_get-cons :
      (j : Uuid) (e : Uuid × A) (m n : List (Uuid × A))
      → index_get j m ≡ index_get j n
      → index_get j (e ∷ m) ≡ index_get j (e ∷ n)
  unfolding index_get
  index_get-cons j e m n h = ground arith

  index_get-sort_by :
      (j : Uuid) (m : List (Uuid × A)) → IsKeyed m → index_get j (sort_by le m) ≡ index_get j m
  unfolding sort_by
  index_get-sort_by j [] h = refl
  index_get-sort_by j ((i, w) ∷ m) h =
      index_get-insert_by j (i, w) (sort_by le m) (rw (keys-sort_by m i) h.0, sort_by-IsKeyed m h.1)
      ∙ index_get-cons j (i, w) (sort_by le m) m (index_get-sort_by j m h.1)

-- Highest priority first.
abbrev pub IsDescending : List Card → Type 0
IsDescending [] = Unit
IsDescending (c ∷ cards) = All (λ d. d.priority ≤ℤ c.priority) cards × IsDescending cards

abbrev by_priority : Uuid × Card → Uuid × Card → Bool
by_priority a b = leb_ℤ b.1.priority a.1.priority

All-values :
    (p : ℤ) (m : List (Uuid × Card))
    → All (λ e. leb_ℤ e.1.priority p ≡ true) m
    → All (λ (d : Card). d.priority ≤ℤ p) (values m)
unfolding values
All-values p [] h = tt
All-values p (e ∷ m) h = (ground arith, All-values p m h.1)

IsDescending-values : (m : List (Uuid × Card)) → IsSorted by_priority m → IsDescending (values m)
unfolding values
IsDescending-values [] h = tt
IsDescending-values (e ∷ m) h = (All-values e.1.priority m h.0, IsDescending-values m h.1)

-- After the cards of a change set are applied, the list goes by falling priority, each identifier is
-- held once, and what is held for it is the last changed card, else nothing if it was deleted, else
-- the last current card.
pub apply_card_changeset_lem :
    (current : List Card) (changes : ChangeSet)
    → IsDescending (apply_card_changeset current changes)
      × HasDistinctIds card_id (apply_card_changeset current changes)
      × ((j : Uuid)
          → held card_id j (apply_card_changeset current changes)
            ≡ expected card_id j current changes.deleted changes.cards)
unfolding apply_card_changeset
apply_card_changeset_lem current changes =
    let m = merged card_id current changes.deleted changes.cards in
    let own =
      All-sort_by by_priority _ m (merged-IsOwn card_id current changes.deleted changes.cards) in
    let keyed = merged-IsKeyed card_id current changes.deleted changes.cards in
    (
      IsDescending-values (sort_by by_priority m)
          (sort_by-IsSorted by_priority (λ x y h. ground arith) (λ x y z h k. ground arith) m),
      values-HasDistinctIds card_id (sort_by by_priority m) own
          (sort_by-IsKeyed by_priority m keyed),
      λ j.
          held-values card_id j (sort_by by_priority m) own
          ∙ index_get-sort_by by_priority j m keyed
          ∙ index_get-merged card_id j current changes.deleted changes.cards,
    )
