-- ===== src/Server/Reads/Changes.antt =====
-- What `get_changes_since` of server/src/storage/sqlite/mod.rs returns: the rows past a number.
use blaze_list.Prelude.{
  ◌≤◌, ℕ, ◌≡◌, refl, Bool, none, List, [], ◌∷◌, map, filter, find, arith, All, contains, ◌==◌,
  ==_refl, ==_iff, ltb, Bool-cases, inl, inr, if◌then◌else◌, subst,
}
use blaze_list.Prelude.Result.{Result, ok, traverse}
use blaze_list.Protocol.Types.{Uuid, Hash}
use blaze_list.Protocol.NonNegative.{NonNegativeI64}
use blaze_list.Protocol.Card.{Card}
use blaze_list.Protocol.Card.Versions.{from_parts-iff_verify}
use blaze_list.Protocol.Tag.Versions.{from_parts-IsSealed}
use blaze_list.Protocol.Tag.{Tag}
use blaze_list.Protocol.Messages.{ChangeSet}
use blaze_list.Server.Table.{select}
use blaze_list.Server.Table.Keys.{changed, IsTable}
use blaze_list.Server.Db.{
  Db, CardRow, TagRow, DeletedRow, card_key, tag_key, deleted_key, card_from_row, tag_from_row,
}
use blaze_list.Server.Live.{IsKeyed}
use blaze_list.Server.Storage.Orderly.{Orderly, OfSome, CardReads, TagReads}
use blaze_list.Server.Storage.Moves.{past, card_number, tag_number, deleted_number}
use blaze_list.Server.Root.History.{read_root_state_lem}
use blaze_list.Server.Reads.{get_changes_since, check_root_hash}
use blaze_list.Client.Sync.Laws.{latest, deleted_ids}

traverse-same :
    {E A : Type 0} (f : A → Result E A) (xs : List A)
    → All (λ x. f x ≡ ok x) xs
    → traverse f xs ≡ ok xs
traverse-same f [] h = refl
traverse-same f (x ∷ xs) h = rw (h.0, traverse-same f xs h.1) refl

All-map-filter :
    {A B : Type 0} (P : A → Type 0) (Q : B → Type 0) (f : A → B) (p : A → Bool) (xs : List A)
    → ((a : A) → P a → Q (f a))
    → All P xs
    → All Q (map f (filter p xs))
All-map-filter P Q f p [] k h = tt
All-map-filter P Q f p (x ∷ xs) k h = elim (Bool-cases (p x)) [
  | inl b ↦ rw b (k x h.0, All-map-filter P Q f p xs k h.1)
  | inr b ↦ rw b (All-map-filter P Q f p xs k h.1)
]

module _ {A : Type 0} (key : A → Uuid) where
  -- What holds of every row that is found holds of every row.
  All-of_select :
      (P : A → Type 0) (rs : List A)
      → IsTable key rs
      → ((j : Uuid) → OfSome P (select key j rs))
      → All P rs
  unfolding select
  All-of_select P [] t h = tt
  All-of_select P (r ∷ rs) t h = (
    rw (==_refl (key r)) at (h (key r)),
    All-of_select P rs t.1 λ j. elim (Bool-cases (key r == j)) [
      | inl b ↦ subst (λ k. OfSome P (select key k rs)) ((==_iff (key r) j).0 b) (rw t.0 tt)
      | inr b ↦ rw b at (h j)
    ],
  )

  -- The last value, among those of the rows past a number, under an identifier.
  latest-past :
      {B : Type 0} (id : B → Uuid) (val : A → B) (number : A → ℕ) (s : ℕ) (rs : List A) (j : Uuid)
      → ((r : A) → id (val r) ≡ key r)
      → IsTable key rs
      → latest id j (map val (filter (λ r. ltb s (number r)) rs)) ≡ (
          if past s (changed number (select key j rs)) then changed val (select key j rs) else none)
  unfolding latest select
  latest-past id val number s [] j e t = refl
  latest-past id val number s (r ∷ rs) j e t =
      let absent : key r ≡ j → select key j rs ≡ none =
        λ same. subst (λ k. select key k rs ≡ none) same t.0 in
      ground (arith, latest-past id val number s rs j e t.1, e r, absent, ==_iff (key r) j)

-- A tombstone past a number is reported.
contains-past :
    (s : ℕ) (rs : List DeletedRow) (j : Uuid)
    → IsTable deleted_key rs
    → contains
        (deleted_ids
          (map (λ (r : DeletedRow). r.entity) (filter (λ r. ltb s r.root_sequence_at) rs)))
        j
      ≡ past s (changed (λ (r : DeletedRow). r.root_sequence_at) (select deleted_key j rs))
unfolding select
contains-past s [] j t = refl
contains-past s (r ∷ rs) j t =
    let absent : r.entity.id ≡ j → select deleted_key j rs ≡ none =
      λ same. subst (λ k. select deleted_key k rs ≡ none) same t.0 in
    ground (arith, contains-past s rs j t.1, absent, ==_iff r.entity.id j, ==_iff j r.entity.id)

module _ (blake3 : List ℕ → Hash) (is_card : Uuid → Bool) where
  card_from_row-reads :
      (r : CardRow) → CardReads blake3 is_card r → card_from_row blake3 r.card ≡ ok r.card
  unfolding card_from_row
  card_from_row-reads r h = rw ((from_parts-iff_verify blake3 r.card r.card).1 (h, refl)) refl

  tag_from_row-reads :
      (r : TagRow) → TagReads blake3 is_card r → tag_from_row blake3 r.tag ≡ ok r.tag
  unfolding tag_from_row
  tag_from_row-reads r h = rw (from_parts-IsSealed blake3 r.tag h) refl

  abbrev pub new_cards : Db → ℕ → List Card
  new_cards db s = map (λ (r : CardRow). r.card) (filter (λ r. ltb s r.root_sequence_at) db.cards)

  abbrev pub new_tags : Db → ℕ → List Tag
  new_tags db s = map (λ (r : TagRow). r.tag) (filter (λ r. ltb s r.root_sequence_at) db.tags)

  abbrev pub changes_past : Db → ℕ → ChangeSet
  changes_past db s = record {
    cards = new_cards db s;
    tags = new_tags db s;
    deleted =
        map (λ (r : DeletedRow). r.entity)
          (filter (λ r. ltb s r.root_sequence_at) db.deleted_entities);
    root = record { hash = db.root_hash; sequence = record { value = db.root_sequence } };
  }

  -- Orderly tables whose root's number is in range answer every client whose root is in their
  -- history or before it.
  pub get_changes_since_lem :
      (db : Db) (sequence : NonNegativeI64) (hash : Hash)
      → IsKeyed db
      → Orderly blake3 is_card db
      → db.root_sequence ≤ 9223372036854775807
      → check_root_hash (find (λ r. r.sequence == sequence.value) db.root_history) sequence hash
        ≡ ok tt
      → get_changes_since blake3 db sequence hash ≡ ok (changes_past db sequence.value)
  unfolding get_changes_since
  get_changes_since_lem db sequence hash k o i h =
      let cards = traverse-same (card_from_row blake3) (new_cards db sequence.value) (
        All-map-filter (CardReads blake3 is_card) (λ c. card_from_row blake3 c ≡ ok c)
          (λ (r : CardRow). r.card) _ db.cards card_from_row-reads
          (All-of_select card_key (CardReads blake3 is_card) db.cards k.card_rows o.card_reads)) in
      let tags = traverse-same (tag_from_row blake3) (new_tags db sequence.value) (
        All-map-filter (TagReads blake3 is_card) (λ t. tag_from_row blake3 t ≡ ok t)
          (λ (r : TagRow). r.tag) _ db.tags tag_from_row-reads
          (All-of_select tag_key (TagReads blake3 is_card) db.tags k.tag_rows o.tag_reads)) in
      rw (h, cards, tags, read_root_state_lem db i) refl

  pub latest-new_cards :
      (db : Db) (s : ℕ) (j : Uuid)
      → IsKeyed db
      → latest (λ (c : Card). c.id) j (new_cards db s) ≡ (
          if past s (card_number db j)
          then changed (λ (r : CardRow). r.card) (select card_key j db.cards)
          else none)
  latest-new_cards db s j k =
      latest-past card_key (λ (c : Card). c.id) (λ (r : CardRow). r.card)
        (λ (r : CardRow). r.root_sequence_at) s db.cards j (λ r. refl) k.card_rows

  pub latest-new_tags :
      (db : Db) (s : ℕ) (j : Uuid)
      → IsKeyed db
      → latest (λ (t : Tag). t.id) j (new_tags db s) ≡ (
          if past s (tag_number db j)
          then changed (λ (r : TagRow). r.tag) (select tag_key j db.tags)
          else none)
  latest-new_tags db s j k =
      latest-past tag_key (λ (t : Tag). t.id) (λ (r : TagRow). r.tag)
        (λ (r : TagRow). r.root_sequence_at) s db.tags j (λ r. refl) k.tag_rows

  pub contains-new_deleted :
      (db : Db) (s : ℕ) (j : Uuid)
      → IsKeyed db
      → contains (deleted_ids (changes_past db s).deleted) j ≡ past s (deleted_number db j)
  contains-new_deleted db s j k = contains-past s db.deleted_entities j k.deleted_rows
