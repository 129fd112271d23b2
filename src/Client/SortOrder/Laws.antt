-- ===== src/Client/SortOrder/Laws.antt =====
-- What sorting the cards promises.
use blaze_list.Prelude.{true, false, ◌≡◌, refl, Option, none, some, List, [], ◌∷◌, arith, ◌⊎◌, All}
use mathlib.Core.List.{Perm}
use blaze_list.Prelude.Int.{ℤ, leb_ℤ, ◌≤ℤ◌, ◌<ℤ◌, eq_of_parts}
use blaze_list.Prelude.Sort.{sort_by, sort_by-perm, sort_by-IsSorted, IsSorted}
use blaze_list.Protocol.Types.{Text}
use blaze_list.Protocol.Card.{Card}
use blaze_list.Server.Reads.{text_le}
use blaze_list.Client.Filter.Modes.{url_text}
use blaze_list.Client.SortOrder.{
  SortOrder, priority, priority_reverse, modified_at, modified_at_reverse, created_at,
  created_at_reverse, title, title_reverse, due_date, due_date_reverse, order_url_value,
  order_from_url_value, due_le, due_dates_le, order_le, sort_cards,
}

-- Reading a URL value back gives the sort order that it was written for.
pub order_from_url_value-order_url_value :
    (o : SortOrder) → order_from_url_value (url_text (order_url_value o)) ≡ o
unfolding order_from_url_value order_url_value
order_from_url_value-order_url_value = elim [
  | priority ↦ refl
  | priority_reverse ↦ refl
  | modified_at ↦ refl
  | modified_at_reverse ↦ refl
  | created_at ↦ refl
  | created_at_reverse ↦ refl
  | title ↦ refl
  | title_reverse ↦ refl
  | due_date ↦ refl
  | due_date_reverse ↦ refl
]

leb_ℤ-total : (a b : ℤ) → leb_ℤ a b ≡ false → leb_ℤ b a ≡ true
leb_ℤ-total a b h = ground arith

leb_ℤ-trans : (a b c : ℤ) → leb_ℤ a b ≡ true → leb_ℤ b c ≡ true → leb_ℤ a c ≡ true
leb_ℤ-trans a b c h k = ground arith

text_le-total : (a b : Text) → text_le a b ≡ false → text_le b a ≡ true
unfolding text_le
text_le-total [] b h = cc
text_le-total (x ∷ xs) [] h = refl
text_le-total (x ∷ xs) (y ∷ ys) h = ground (arith, text_le-total xs ys)

text_le_trans : (a b c : Text) → text_le a b ≡ true → text_le b c ≡ true → text_le a c ≡ true
unfolding text_le
text_le_trans [] b c h k = refl
text_le_trans (x ∷ xs) [] c h k = cc
text_le_trans (x ∷ xs) (y ∷ ys) [] h k = cc
text_le_trans (x ∷ xs) (y ∷ ys) (z ∷ zs) h k = ground (arith, text_le_trans xs ys zs)

-- The due dates decide where both cards have one; an undated card stands behind a dated one, and
-- ties go to the higher priority.
abbrev pub DueBefore : (ℤ → ℤ → Type 0) → Option ℤ → Option ℤ → ℤ → ℤ → Type 0
DueBefore Lt none none p q = q ≤ℤ p
DueBefore Lt none (some e) p q = ⊥
DueBefore Lt (some d) none p q = Unit
DueBefore Lt (some d) (some e) p q = Lt d e ⊎ (d ≡ e) × (q ≤ℤ p)

DueBefore-of_due_dates_le :
    (x y : Option ℤ) (p q : ℤ) → due_dates_le false x y (leb_ℤ q p) ≡ true → DueBefore ◌<ℤ◌ x y p q
unfolding due_dates_le
DueBefore-of_due_dates_le none none p q h = ground arith
DueBefore-of_due_dates_le none (some e) p q h = cc
DueBefore-of_due_dates_le (some d) none p q h = tt
DueBefore-of_due_dates_le (some d) (some e) p q h = ground (arith, eq_of_parts d e)

DueBefore-of_due_dates_le_reverse :
    (x y : Option ℤ) (p q : ℤ)
    → due_dates_le true x y (leb_ℤ q p) ≡ true
    → DueBefore (λ d e. e <ℤ d) x y p q
unfolding due_dates_le
DueBefore-of_due_dates_le_reverse none none p q h = ground arith
DueBefore-of_due_dates_le_reverse none (some e) p q h = cc
DueBefore-of_due_dates_le_reverse (some d) none p q h = tt
DueBefore-of_due_dates_le_reverse (some d) (some e) p q h = ground (arith, eq_of_parts d e)

module _ (to_lowercase : Text → Text) where
  order_le-total :
      (o : SortOrder) (a b : Card)
      → order_le to_lowercase o a b ≡ false
      → order_le to_lowercase o b a ≡ true
  unfolding order_le due_le due_dates_le
  order_le-total priority a b h = leb_ℤ-total b.priority a.priority h
  order_le-total priority_reverse a b h = leb_ℤ-total a.priority b.priority h
  order_le-total modified_at a b h = leb_ℤ-total b.modified_at a.modified_at h
  order_le-total modified_at_reverse a b h = leb_ℤ-total a.modified_at b.modified_at h
  order_le-total created_at a b h = leb_ℤ-total b.created_at a.created_at h
  order_le-total created_at_reverse a b h = leb_ℤ-total a.created_at b.created_at h
  order_le-total title a b h = text_le-total (to_lowercase a.content) (to_lowercase b.content) h
  order_le-total title_reverse a b h =
      text_le-total (to_lowercase b.content) (to_lowercase a.content) h
  order_le-total due_date a b h = ground (arith, leb_ℤ-total b.priority a.priority)
  order_le-total due_date_reverse a b h = ground (arith, leb_ℤ-total b.priority a.priority)

  order_le_trans :
      (o : SortOrder) (a b c : Card)
      → order_le to_lowercase o a b ≡ true
      → order_le to_lowercase o b c ≡ true
      → order_le to_lowercase o a c ≡ true
  unfolding order_le due_le due_dates_le
  order_le_trans priority a b c h k = leb_ℤ-trans c.priority b.priority a.priority k h
  order_le_trans priority_reverse a b c h k = leb_ℤ-trans a.priority b.priority c.priority h k
  order_le_trans modified_at a b c h k = leb_ℤ-trans c.modified_at b.modified_at a.modified_at k h
  order_le_trans modified_at_reverse a b c h k =
      leb_ℤ-trans a.modified_at b.modified_at c.modified_at h k
  order_le_trans created_at a b c h k = leb_ℤ-trans c.created_at b.created_at a.created_at k h
  order_le_trans created_at_reverse a b c h k =
      leb_ℤ-trans a.created_at b.created_at c.created_at h k
  order_le_trans title a b c h k =
      text_le_trans (to_lowercase a.content) (to_lowercase b.content) (to_lowercase c.content) h k
  order_le_trans title_reverse a b c h k =
      text_le_trans (to_lowercase c.content) (to_lowercase b.content) (to_lowercase a.content) k h
  order_le_trans due_date a b c h k = ground (arith, leb_ℤ-trans c.priority b.priority a.priority)
  order_le_trans due_date_reverse a b c h k =
      ground (arith, leb_ℤ-trans c.priority b.priority a.priority)

  -- What each order promises of a card that stands before another.
  abbrev pub Before : SortOrder → Card → Card → Type 0
  Before priority a b = b.priority ≤ℤ a.priority
  Before priority_reverse a b = a.priority ≤ℤ b.priority
  Before modified_at a b = b.modified_at ≤ℤ a.modified_at
  Before modified_at_reverse a b = a.modified_at ≤ℤ b.modified_at
  Before created_at a b = b.created_at ≤ℤ a.created_at
  Before created_at_reverse a b = a.created_at ≤ℤ b.created_at
  Before title a b = text_le (to_lowercase a.content) (to_lowercase b.content) ≡ true
  Before title_reverse a b = text_le (to_lowercase b.content) (to_lowercase a.content) ≡ true
  Before due_date a b = DueBefore ◌<ℤ◌ a.due_date b.due_date a.priority b.priority
  Before due_date_reverse a b =
      DueBefore (λ d e. e <ℤ d) a.due_date b.due_date a.priority b.priority

  Before-of_order_le :
      (o : SortOrder) (a b : Card) → order_le to_lowercase o a b ≡ true → Before o a b
  unfolding order_le due_le
  Before-of_order_le priority a b h = ground arith
  Before-of_order_le priority_reverse a b h = ground arith
  Before-of_order_le modified_at a b h = ground arith
  Before-of_order_le modified_at_reverse a b h = ground arith
  Before-of_order_le created_at a b h = ground arith
  Before-of_order_le created_at_reverse a b h = ground arith
  Before-of_order_le title a b h = h
  Before-of_order_le title_reverse a b h = h
  Before-of_order_le due_date a b h =
      DueBefore-of_due_dates_le a.due_date b.due_date a.priority b.priority h
  Before-of_order_le due_date_reverse a b h =
      DueBefore-of_due_dates_le_reverse a.due_date b.due_date a.priority b.priority h

  -- Each card stands before all that follow it.
  abbrev pub IsOrdered : SortOrder → List Card → Type 0
  IsOrdered o [] = Unit
  IsOrdered o (c ∷ cards) = All (Before o c) cards × IsOrdered o cards

  All-Before :
      (o : SortOrder) (a : Card) (bs : List Card)
      → All (λ b. order_le to_lowercase o a b ≡ true) bs
      → All (Before o a) bs
  All-Before o a [] h = tt
  All-Before o a (b ∷ bs) h = (Before-of_order_le o a b h.0, All-Before o a bs h.1)

  IsOrdered-of_IsSorted :
      (o : SortOrder) (cards : List Card)
      → IsSorted (order_le to_lowercase o) cards
      → IsOrdered o cards
  IsOrdered-of_IsSorted o [] h = tt
  IsOrdered-of_IsSorted o (c ∷ cards) h =
      (All-Before o c cards h.0, IsOrdered-of_IsSorted o cards h.1)

  -- For each of the ten orders, the result holds the same cards and each card stands before those
  -- that follow: by priority, time or lower-case text in the given direction, or by due date with
  -- the undated cards last and ties broken by priority.
  pub sort_cards_lem :
      (o : SortOrder) (cards : List Card)
      → Perm (sort_cards to_lowercase cards o) cards × IsOrdered o (sort_cards to_lowercase cards o)
  unfolding sort_cards
  sort_cards_lem o cards = (
    sort_by-perm (order_le to_lowercase o) cards,
    IsOrdered-of_IsSorted o (sort_by (order_le to_lowercase o) cards)
        (sort_by-IsSorted (order_le to_lowercase o) (order_le-total o) (order_le_trans o) cards),
  )
