-- ===== src/Client/Sync/Laws.antt =====
-- What applying a change set leaves.
use blaze_list.Prelude.{
  ◌≡◌, refl, ◌∙◌, ap, sym, subst, false, not, ◌&&◌, ◌||◌, Option, none, some, List, [], ◌∷◌, ◌++◌,
  map, find, All, contains, last_or, ◌==◌, arith, if◌then◌else◌, Bool-cases, inl, inr,
}
use blaze_list.Prelude.Btree.{keys}
use blaze_list.Protocol.Types.{Uuid}
use blaze_list.Protocol.Tag.{Tag}
use blaze_list.Protocol.Deleted.{DeletedEntity}
use blaze_list.Protocol.Messages.{ChangeSet}
use blaze_list.Client.Sync.{
  index_insert, init_of, fill_gap, upsert_all, values, swap_remove, remove_deleted, merged, tag_id,
  apply_tag_changeset,
}

module _ {A : Type 0} where
  unfoldable pub index_get : Uuid → List (Uuid × A) → Option A
  index_get j [] = none
  index_get j ((k, v) ∷ m) = if k == j then some v else index_get j m

  -- The keys are distinct.
  abbrev pub IsKeyed : List (Uuid × A) → Type 0
  IsKeyed [] = Unit
  IsKeyed ((k, v) ∷ m) = (contains (keys m) k ≡ false) × IsKeyed m

  pub index_get-absent :
      (j : Uuid) (m : List (Uuid × A)) → contains (keys m) j ≡ false → index_get j m ≡ none
  unfolding index_get
  index_get-absent j [] h = refl
  index_get-absent j ((k, v) ∷ m) h = ground (arith, index_get-absent j m)

  index_get-index_insert :
      (j k : Uuid) (v : A) (m : List (Uuid × A))
      → index_get j (index_insert k v m) ≡ (if j == k then some v else index_get j m)
  unfolding index_get index_insert
  index_get-index_insert j k v [] = ground arith
  index_get-index_insert j k v ((i, w) ∷ m) = ground (arith, index_get-index_insert j k v m)

  keys-index_insert :
      (k : Uuid) (v : A) (m : List (Uuid × A)) (j : Uuid)
      → contains (keys (index_insert k v m)) j ≡ (j == k || contains (keys m) j)
  unfolding index_insert
  keys-index_insert k v [] j = refl
  keys-index_insert k v ((i, w) ∷ m) j = ground (arith, keys-index_insert k v m j)

  index_insert-IsKeyed :
      (k : Uuid) (v : A) (m : List (Uuid × A)) → IsKeyed m → IsKeyed (index_insert k v m)
  unfolding index_insert
  index_insert-IsKeyed k v [] h = (refl, tt)
  index_insert-IsKeyed k v ((i, w) ∷ m) h =
      ground (arith, keys-index_insert k v m i, index_insert-IsKeyed k v m h.1)

  snoc_init : (x : Uuid × A) (xs : List (Uuid × A)) → init_of (x ∷ xs) ++ last_or x xs ∷ [] ≡ x ∷ xs
  unfolding init_of
  snoc_init x [] = refl
  snoc_init x (y ∷ ys) = ap (λ l. x ∷ l) (snoc_init y ys)

  keys-snoc :
      (m : List (Uuid × A)) (e : Uuid × A) (j : Uuid)
      → contains (keys (m ++ e ∷ [])) j ≡ contains (keys (e ∷ m)) j
  keys-snoc [] e j = refl
  keys-snoc ((i, w) ∷ m) e j = ground (arith, keys-snoc m e j)

  index_get-snoc :
      (j : Uuid) (m : List (Uuid × A)) (e : Uuid × A)
      → IsKeyed (m ++ e ∷ [])
      → index_get j (m ++ e ∷ []) ≡ index_get j (e ∷ m)
  unfolding index_get
  index_get-snoc j [] e h = refl
  index_get-snoc j ((i, w) ∷ m) e h = ground (arith, index_get-snoc j m e h.1, keys-snoc m e i)

  IsKeyed-snoc : (m : List (Uuid × A)) (e : Uuid × A) → IsKeyed (m ++ e ∷ []) → IsKeyed (e ∷ m)
  IsKeyed-snoc [] e h = (refl, tt)
  IsKeyed-snoc ((i, w) ∷ m) e h =
      let tail = IsKeyed-snoc m e h.1 in
      let first = keys-snoc m e i in (ground arith, (ground arith, tail.1))

  record FillsGap (m : List (Uuid × A)) : Type 0 where
    keyed : IsKeyed (fill_gap m)
    gets : (j : Uuid) → index_get j (fill_gap m) ≡ index_get j m
    has : (j : Uuid) → contains (keys (fill_gap m)) j ≡ contains (keys m) j

  -- Moving the last entry to the front keeps what is found.
  fill_gap-FillsGap : (m : List (Uuid × A)) → IsKeyed m → FillsGap m
  fill_gap-FillsGap [] h = record { keyed = tt; gets = λ j. refl; has = λ j. refl }
  fill_gap-FillsGap (x ∷ xs) h =
      let same = snoc_init x xs in
      let h' = subst IsKeyed (sym same) h in
      let front = init_of (x ∷ xs) in
      let end = last_or x xs in
      record {
        keyed = IsKeyed-snoc front end h';
        gets = λ j. sym (index_get-snoc j front end h') ∙ ap (index_get j) same;
        has = λ j. sym (keys-snoc front end j) ∙ ap (λ l. contains (keys l) j) same;
      }

  record Removes (k : Uuid) (m : List (Uuid × A)) : Type 0 where
    keyed : IsKeyed (swap_remove k m)
    gets : (j : Uuid) → index_get j (swap_remove k m) ≡ (if j == k then none else index_get j m)
    has : (j : Uuid) → contains (keys (swap_remove k m)) j ≡ (contains (keys m) j && not (j == k))

  swap_remove-Removes : (k : Uuid) (m : List (Uuid × A)) → IsKeyed m → Removes k m
  unfolding swap_remove index_get
  swap_remove-Removes k [] h = record { keyed = tt; gets = λ j. ground arith; has = λ j. refl }
  swap_remove-Removes k ((i, w) ∷ m) h = elim (Bool-cases (i == k)) [
    | inl hit ↦
        let filled = fill_gap-FillsGap m h.1 in
        record {
          keyed = rw hit filled.keyed;
          gets = λ j. rw hit (ground (arith, filled.gets j, index_get-absent i m h.0));
          has = λ j. rw hit (ground (arith, filled.has j));
        }
    | inr other ↦
        let rest = swap_remove-Removes k m h.1 in
        record {
          keyed = rw other (ground (arith, rest.has i), rest.keyed);
          gets = λ j. rw other (ground (arith, rest.gets j));
          has = λ j. rw other (ground (arith, rest.has j));
        }
  ]

-- The identifiers of deleted entities.
abbrev pub deleted_ids : List DeletedEntity → List Uuid
deleted_ids = map (λ (d : DeletedEntity). d.id)

module _ {A : Type 0} where
  remove_deleted-IsKeyed :
      (ds : List DeletedEntity) (m : List (Uuid × A)) → IsKeyed m → IsKeyed (remove_deleted ds m)
  unfolding remove_deleted
  remove_deleted-IsKeyed [] m h = h
  remove_deleted-IsKeyed (d ∷ ds) m h =
      remove_deleted-IsKeyed ds (swap_remove d.id m) (swap_remove-Removes d.id m h).keyed

  index_get-remove_deleted :
      (j : Uuid) (ds : List DeletedEntity) (m : List (Uuid × A))
      → IsKeyed m
      → index_get j (remove_deleted ds m)
        ≡ (if contains (deleted_ids ds) j then none else index_get j m)
  unfolding remove_deleted
  index_get-remove_deleted j [] m h = refl
  index_get-remove_deleted j (d ∷ ds) m h =
      let here = swap_remove-Removes d.id m h in
      ground (arith, index_get-remove_deleted j ds (swap_remove d.id m) here.keyed, here.gets j)

module _ {A : Type 0} (id : A → Uuid) where
  -- The last value with the identifier.
  unfoldable pub latest : Uuid → List A → Option A
  latest j [] = none
  latest j (v ∷ vs) = elim (latest j vs) [
    | none ↦ if id v == j then some v else none
    | some w ↦ some w
  ]

  upsert_all-IsKeyed :
      (vs : List A) (m : List (Uuid × A)) → IsKeyed m → IsKeyed (upsert_all id vs m)
  unfolding upsert_all
  upsert_all-IsKeyed [] m h = h
  upsert_all-IsKeyed (v ∷ vs) m h =
      upsert_all-IsKeyed vs (index_insert (id v) v m) (index_insert-IsKeyed (id v) v m h)

  index_get-upsert_all :
      (j : Uuid) (vs : List A) (m : List (Uuid × A))
      → index_get j (upsert_all id vs m)
        ≡ elim (latest j vs) [ none ↦ index_get j m | some v ↦ some v ]
  unfolding upsert_all latest
  index_get-upsert_all j [] m = refl
  index_get-upsert_all j (v ∷ vs) m = ground (
    arith,
    index_get-upsert_all j vs (index_insert (id v) v m),
    index_get-index_insert j (id v) v m,
  )

  pub merged-IsKeyed :
      (current : List A) (ds : List DeletedEntity) (changed : List A)
      → IsKeyed (merged id current ds changed)
  unfolding merged
  merged-IsKeyed current ds changed =
      upsert_all-IsKeyed changed _ (remove_deleted-IsKeyed ds _ (upsert_all-IsKeyed current [] tt))

  -- What a merge should hold: the last change, else nothing for a deleted entity, else the current
  -- value.
  abbrev pub expected : Uuid → List A → List DeletedEntity → List A → Option A
  expected j current ds changed = elim (latest j changed) [
    | some v ↦ some v
    | none ↦ if contains (deleted_ids ds) j then none else latest j current
  ]

  pub index_get-merged :
      (j : Uuid) (current : List A) (ds : List DeletedEntity) (changed : List A)
      → index_get j (merged id current ds changed) ≡ expected j current ds changed
  unfolding merged index_get
  index_get-merged j current ds changed = ground (
    arith,
    index_get-upsert_all j changed (remove_deleted ds (upsert_all id current [])),
    index_get-remove_deleted j ds (upsert_all id current []) (upsert_all-IsKeyed current [] tt),
    index_get-upsert_all j current [],
  )

  -- Every value stands under its own identifier.
  abbrev pub IsOwn : List (Uuid × A) → Type 0
  IsOwn = All (λ e. e.0 ≡ id e.1)

  index_insert-IsOwn : (v : A) (m : List (Uuid × A)) → IsOwn m → IsOwn (index_insert (id v) v m)
  unfolding index_insert
  index_insert-IsOwn v [] h = (refl, tt)
  index_insert-IsOwn v ((i, w) ∷ m) h = ground (arith, index_insert-IsOwn v m h.1)

  upsert_all-IsOwn : (vs : List A) (m : List (Uuid × A)) → IsOwn m → IsOwn (upsert_all id vs m)
  unfolding upsert_all
  upsert_all-IsOwn [] m h = h
  upsert_all-IsOwn (v ∷ vs) m h =
      upsert_all-IsOwn vs (index_insert (id v) v m) (index_insert-IsOwn v m h)

  IsOwn-snoc : (m : List (Uuid × A)) (e : Uuid × A) → IsOwn (m ++ e ∷ []) → IsOwn (e ∷ m)
  IsOwn-snoc [] e h = h
  IsOwn-snoc (f ∷ m) e h = let tail = IsOwn-snoc m e h.1 in (tail.0, (h.0, tail.1))

  swap_remove-IsOwn : (k : Uuid) (m : List (Uuid × A)) → IsOwn m → IsOwn (swap_remove k m)
  unfolding swap_remove
  swap_remove-IsOwn k [] h = tt
  swap_remove-IsOwn k ((i, w) ∷ []) h = elim (Bool-cases (i == k)) [
    | inl hit ↦ rw hit tt
    | inr other ↦ rw other (h.0, tt)
  ]
  swap_remove-IsOwn k ((i, w) ∷ x ∷ xs) h = elim (Bool-cases (i == k)) [
    | inl hit ↦
        rw hit
          (IsOwn-snoc (init_of (x ∷ xs)) (last_or x xs) (subst IsOwn (sym (snoc_init x xs)) h.1))
    | inr other ↦ rw other (h.0, swap_remove-IsOwn k (x ∷ xs) h.1)
  ]

  remove_deleted-IsOwn :
      (ds : List DeletedEntity) (m : List (Uuid × A)) → IsOwn m → IsOwn (remove_deleted ds m)
  unfolding remove_deleted
  remove_deleted-IsOwn [] m h = h
  remove_deleted-IsOwn (d ∷ ds) m h =
      remove_deleted-IsOwn ds (swap_remove d.id m) (swap_remove-IsOwn d.id m h)

  pub merged-IsOwn :
      (current : List A) (ds : List DeletedEntity) (changed : List A)
      → IsOwn (merged id current ds changed)
  unfolding merged
  merged-IsOwn current ds changed =
      upsert_all-IsOwn changed _ (remove_deleted-IsOwn ds _ (upsert_all-IsOwn current [] tt))

  -- The value with an identifier in a list, and lists where identifiers are distinct.
  abbrev pub held : Uuid → List A → Option A
  held j = find (λ v. id v == j)

  abbrev pub HasDistinctIds : List A → Type 0
  HasDistinctIds [] = Unit
  HasDistinctIds (v ∷ vs) = (contains (map id vs) (id v) ≡ false) × HasDistinctIds vs

  pub held-values : (j : Uuid) (m : List (Uuid × A)) → IsOwn m → held j (values m) ≡ index_get j m
  unfolding values index_get
  held-values j [] h = refl
  held-values j ((i, w) ∷ m) h = ground (arith, held-values j m h.1)

  map_id-values : (m : List (Uuid × A)) → IsOwn m → map id (values m) ≡ keys m
  unfolding values
  map_id-values [] h = refl
  map_id-values ((i, w) ∷ m) h = ground (arith, map_id-values m h.1)

  pub values-HasDistinctIds :
      (m : List (Uuid × A)) → IsOwn m → IsKeyed m → HasDistinctIds (values m)
  unfolding values
  values-HasDistinctIds [] h k = tt
  values-HasDistinctIds ((i, w) ∷ m) h k =
      (ground (arith, map_id-values m h.1), values-HasDistinctIds m h.1 k.1)

-- After the tags of a change set are applied, each identifier is held once, and what is held for it
-- is the last changed tag, else nothing if it was deleted, else the last current tag.
pub apply_tag_changeset_lem :
    (current : List Tag) (changes : ChangeSet)
    → HasDistinctIds tag_id (apply_tag_changeset current changes)
      × ((j : Uuid)
          → held tag_id j (apply_tag_changeset current changes)
            ≡ expected tag_id j current changes.deleted changes.tags)
unfolding apply_tag_changeset
apply_tag_changeset_lem current changes =
    let own = merged-IsOwn tag_id current changes.deleted changes.tags in
    let keyed = merged-IsKeyed tag_id current changes.deleted changes.tags in
    (
      values-HasDistinctIds tag_id _ own keyed,
      λ j.
          held-values tag_id j _ own
          ∙ index_get-merged tag_id j current changes.deleted changes.tags,
    )
