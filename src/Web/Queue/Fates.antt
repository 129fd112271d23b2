-- ===== src/Web/Queue/Fates.antt =====
-- What `rebuild_card` of clients/wasm/src/state/sync.rs makes of an edit, and when it panics.
use blaze_list.Prelude.{
  All, ◌<◌, sym, Bool-cases, ℕ, ◌+◌, ◌≤◌, find, ◌≡◌, ◌≢◌, refl, ap, subst, Bool, inl, inr, Option,
  none, some, List, [], ◌∷◌, contains, arith, Option-cases, ◌==◌,
}
use blaze_list.Prelude.Int.{ℤ}
use blaze_list.Prelude.Result.{Result-cases}
use blaze_list.Protocol.Types.{Uuid, Hash, DateTime, Text}
use blaze_list.Protocol.NonNegative.{NonNegativeI64, try_from_u64, to_u64}
use blaze_list.Protocol.Card
use blaze_list.Protocol.Card.{Card, next, successor, first}
use blaze_list.Protocol.Tag.Versions.{contains-sort_ids}
use blaze_list.Client.Priority.{build_shifted_versions}
use blaze_list.Web.Queue.{rebuild_card}

-- A version with the user's edit: all that a user writes but the priority.
pub record HasEdit (edit c : Card) : Type 0 where
  content : c.content ≡ edit.content
  tags : (x : Uuid) → contains c.tags x ≡ contains edit.tags x
  blazed : c.blazed ≡ edit.blazed
  due_date : c.due_date ≡ edit.due_date

pub HasEdit-refl : (c : Card) → HasEdit c c
HasEdit-refl c = record { content = refl; tags = λ x. refl; blazed = refl; due_date = refl }

some-inj : {A : Type 0} {a b : A} → ◌≡◌ {A = Option A} (some a) (some b) → a ≡ b
some-inj {a} h = ap (λ o. elim o [ none ↦ a | some x ↦ x ]) h

-- The card that a version rebuilt on an ancestor is of.
abbrev pub subject : Card → Option Card → Uuid
subject card none = card.id
subject card (some c) = c.id

-- Each card can have a next version.
abbrev pub BelowLimit : List Card → Type 0
BelowLimit = All (λ (c : Card). c.count.value < 9223372036854775807)

find-BelowLimit :
    (id : Uuid) (cards : List Card) (c : Card)
    → find (λ (d : Card). d.id == id) cards ≡ some c
    → BelowLimit cards
    → c.count.value < 9223372036854775807
find-BelowLimit id [] c h b = cc
find-BelowLimit id (d ∷ ds) c h b = elim (Bool-cases (d.id == id)) [
  | inl e ↦ subst (λ (x : Card). x.count.value < 9223372036854775807) (some-inj (rw e at h)) b.0
  | inr e ↦ find-BelowLimit id ds c (rw e at h) b.1
]

module _ (blake3 : List ℕ → Hash) (now : DateTime) where
  first-HasEdit :
      (card : Card) (priority : ℤ)
      → HasEdit card (
          first blake3 card.id card.content priority card.tags card.blazed card.created_at
            card.due_date)
  unfolding first Card.seal
  first-HasEdit card priority = record {
    content = refl;
    tags = contains-sort_ids card.tags;
    blazed = refl;
    due_date = refl;
  }

  successor-HasEdit :
      (a card : Card) (priority : ℤ) (n : NonNegativeI64)
      → HasEdit card
          (successor blake3 a card.content priority card.tags card.blazed now card.due_date n)
  unfolding successor Card.seal
  successor-HasEdit a card priority n = record {
    content = refl;
    tags = contains-sort_ids card.tags;
    blazed = refl;
    due_date = refl;
  }

  next-none :
      (a : Card) (content : Text) (priority : ℤ) (tags : List Uuid) (blazed : Bool)
      (due_date : Option DateTime)
      → next blake3 a content priority tags blazed now due_date ≡ none
      → 9223372036854775807 ≤ a.count.value
  unfolding next try_from_u64 to_u64
  next-none a content priority tags blazed due_date h = ground arith

  -- A card has no next version only at the largest count.
  pub rebuild_card-none :
      (card a : Card) (priority : ℤ)
      → rebuild_card blake3 now card priority (some a) ≡ none
      → 9223372036854775807 ≤ a.count.value
  unfolding rebuild_card
  rebuild_card-none card a priority h =
      next-none a card.content priority card.tags card.blazed card.due_date h

  pub recreated-some :
      (card : Card) (priority : ℤ) → rebuild_card blake3 now card priority none ≢ none
  unfolding rebuild_card
  recreated-some card priority h = cc

  pub build_shifted_versions-none :
      (shifted : List (Uuid × ℤ)) (cards : List Card)
      → build_shifted_versions blake3 shifted cards now ≡ none
      → ¬ BelowLimit cards
  unfolding build_shifted_versions
  build_shifted_versions-none [] cards h b = cc
  build_shifted_versions-none ((id, p) ∷ shifted) cards h b =
      elim (Option-cases (build_shifted_versions blake3 shifted cards now)) [
        | inl e ↦ build_shifted_versions-none shifted cards e b
        | inr (ds, e) ↦ elim (Option-cases (find (λ (c : Card). c.id == id) cards)) [
          | inl n ↦ absurd (ground arith)
          | inr (c, f) ↦
              let full = next-none c c.content p c.tags c.blazed c.due_date (ground arith) in
              absurd (omega (arith, full, find-BelowLimit id cards c f b))
        ]
      ]

  -- What is rebuilt has the edit.
  pub rebuild_card-HasEdit :
      (card : Card) (priority : ℤ) (ancestor : Option Card) (d : Card)
      → rebuild_card blake3 now card priority ancestor ≡ some d
      → HasEdit card d
  unfolding rebuild_card next
  rebuild_card-HasEdit card priority (some a) d h =
      elim (Result-cases (try_from_u64 (to_u64 a.count + 1))) [
        | inl (n, e) ↦
            let h' = rw (e, rebuild_card, next) at h in
            subst (HasEdit card) (some-inj h') (successor-HasEdit a card priority n)
        | inr (x, e) ↦ absurd (ground arith)
      ]
  rebuild_card-HasEdit card priority none d h =
      subst (HasEdit card) (some-inj h) (first-HasEdit card priority)

  -- It is a version of the server's card, or of the edit's own where there is none.
  pub rebuild_card-id :
      (card : Card) (priority : ℤ) (ancestor : Option Card) (d : Card)
      → rebuild_card blake3 now card priority ancestor ≡ some d
      → d.id ≡ subject card ancestor
  unfolding rebuild_card next first successor Card.seal
  rebuild_card-id card priority (some a) d h =
      elim (Result-cases (try_from_u64 (to_u64 a.count + 1))) [
        | inl (n, e) ↦
            let h' = rw (e, rebuild_card, next) at h in ap (λ (c : Card). c.id) (sym (some-inj h'))
        | inr (x, e) ↦ absurd (ground arith)
      ]
  rebuild_card-id card priority none d h = ap (λ (c : Card). c.id) (sym (some-inj h))
