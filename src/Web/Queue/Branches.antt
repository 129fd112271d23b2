-- ===== src/Web/Queue/Branches.antt =====
-- The branches of `flush_offline_queue` in clients/wasm/src/state/sync.rs that push a card again.
use blaze_list.Prelude.{
  ℕ, ◌≡◌, refl, inl, inr, Option, none, some, List, Option-cases, Bool-cases, ◌==◌, not, filter, [],
  ◌∷◌, map, Bool,
}
use blaze_list.Prelude.Int.{ℤ}
use blaze_list.Prelude.Result.{Result, ok, err}
use blaze_list.Prelude.Sort.{All-sort_by}
use blaze_list.Protocol.Types.{Hash, DateTime, Text, zero_hash}
use blaze_list.Protocol.Card.{Card}
use blaze_list.Protocol.Messages.{Request, Response, PushItem, RootState}
use blaze_list.Client.Requests.{ClientError, push_card, get_card}
use blaze_list.Client.Priority.{build_shifted_versions, simple, rebalanced, Placement}
use blaze_list.Client.SortOrder.{sort_by_priority, sort_cards}
use blaze_list.Web.Queue.{
  Flush, rebuild_card, settled_rebase, place_with, place_on, collide, rebase, recreate, upsert_each,
}
use blaze_list.Web.Queue.Fates.{
  HasEdit-refl, rebuild_card-HasEdit, rebuild_card-id, rebuild_card-none, recreated-some,
  build_shifted_versions-none, BelowLimit,
}
use blaze_list.Web.Queue.Steps.{
  Asked, refused, named, fetched, pushed, batched, asked, Panics, Mismatch, Handled, HandledOr,
  rejected, settled-Handled,
}

filter-BelowLimit :
    (p : Card → Bool) (cards : List Card) → BelowLimit cards → BelowLimit (filter p cards)
filter-BelowLimit p [] b = tt
filter-BelowLimit p (c ∷ cs) b = elim (Bool-cases (p c)) [
  | inl e ↦ rw e (b.0, filter-BelowLimit p cs b.1)
  | inr e ↦ rw e (filter-BelowLimit p cs b.1)
]

module _ (blake3 : List ℕ → Hash) (now : DateTime) {S : Type 0}
    (request : S → Request → S × Result ClientError Response) (random : ℕ → ℕ)
    (to_lowercase : Text → Text) where
  rebuild_card-Panics :
      (old : Flush S) (s : S) (card : Card) (p : ℤ) (ancestor : Option Card)
      → Asked blake3 now request card old.server s ancestor
      → rebuild_card blake3 now card p ancestor ≡ none
      → Panics blake3 now request old card
  rebuild_card-Panics old s card p (some c) a e =
      inl (s, c, a, rebuild_card-none blake3 now card c p e)
  rebuild_card-Panics old s card p none a e = absurd (recreated-some blake3 now card p e)

  place_with-Handled :
      (old : Flush S) (s : S) (card : Card) (cards : List Card) (ancestor : Option Card)
      (p : Placement)
      → Asked blake3 now request card old.server s ancestor
      → (BelowLimit old.cards → BelowLimit cards)
      → HandledOr blake3 now request old card
          (place_with request blake3 random now (record old { server = s }) card cards ancestor p)
  unfolding place_with upsert_each
  place_with-Handled old s card cards ancestor (simple p) a b =
      elim (Option-cases (rebuild_card blake3 now card p ancestor)) [
        | inl e ↦ rw (e, place_with) (rebuild_card-Panics old s card p ancestor a e)
        | inr (retry, e) ↦
            rw (e, place_with)
              (settled-Handled blake3 now request old card retry card _ [] s ancestor
                (push_card request s retry)
                (rebuild_card-HasEdit blake3 now card p ancestor retry e)
                (rebuild_card-id blake3 now card p ancestor retry e) (HasEdit-refl card) refl a
                (λ s' root q. inl (root, q, refl))
                (λ s' x q.
                  pushed s ancestor retry x a
                    (rebuild_card-HasEdit blake3 now card p ancestor retry e)
                    (rebuild_card-id blake3 now card p ancestor retry e) q)
                refl)
      ]
  place_with-Handled old s card cards ancestor (rebalanced p shifted) a b =
      elim (Option-cases (rebuild_card blake3 now card p ancestor)) [
        | inl e ↦ rw (e, place_with) (rebuild_card-Panics old s card p ancestor a e)
        | inr (retry, e) ↦ elim (Option-cases (build_shifted_versions blake3 shifted cards now)) [
          | inl e' ↦
              rw (e, e', place_with)
                (inr λ below. build_shifted_versions-none blake3 now shifted cards e' (b below))
          | inr (shifted_cards, e') ↦
              rw (e, e', place_with)
                (settled-Handled blake3 now request old card retry card _ shifted_cards s ancestor _
                  (rebuild_card-HasEdit blake3 now card p ancestor retry e)
                  (rebuild_card-id blake3 now card p ancestor retry e) (HasEdit-refl card) refl a
                  (λ s' root q. inr (root, q))
                  (λ s' x q.
                    batched s ancestor (map (λ (c : Card). PushItem.cards (c ∷ [])) shifted_cards)
                      retry x a (rebuild_card-HasEdit blake3 now card p ancestor retry e)
                      (rebuild_card-id blake3 now card p ancestor retry e) q)
                  refl)
        ]
      ]

  place_on-Handled :
      (old : Flush S) (s : S) (card : Card) (cards : List Card) (x : ClientError)
      (m : S × Result ClientError Card)
      → push_card request old.server card ≡ (s, err x)
      → get_card request s card.id ≡ m
      → (BelowLimit old.cards → BelowLimit cards)
      → HandledOr blake3 now request old card
          (place_on request blake3 random now (record old { server = s }) card cards m)
  unfolding place_on
  place_on-Handled old s card cards x (s', ok c) h q b =
      place_with-Handled old s' card cards (some c) _ (fetched s s' x c h q) b
  place_on-Handled old s card cards x (s', err ClientError.connection_lost) h q b = record {
    edit = HasEdit-refl card;
    id = refl;
    cards = refl;
    why = inr (asked s x _ h q);
  }
  place_on-Handled old s card cards x (s', err (ClientError.protocol y)) h q b = record {
    edit = HasEdit-refl card;
    id = refl;
    cards = refl;
    why = inr (asked s x _ h q);
  }
  place_on-Handled old s card cards x (s', err ClientError.unexpected_response) h q b = record {
    edit = HasEdit-refl card;
    id = refl;
    cards = refl;
    why = inr (asked s x _ h q);
  }
  place_on-Handled old s card cards x (s', err (ClientError.version_mismatch y)) h q b = record {
    edit = HasEdit-refl card;
    id = refl;
    cards = refl;
    why = inr (asked s x _ h q);
  }

  pub collide-Handled :
      (old : Flush S) (s : S) (card : Card) (x : ClientError)
      → push_card request old.server card ≡ (s, err x)
      → HandledOr blake3 now request old card
          (collide request blake3 random now to_lowercase (record old { server = s }) card)
  unfolding collide sort_by_priority sort_cards
  collide-Handled old s card x h =
      let below = λ (b : BelowLimit old.cards).
        All-sort_by _ _ _ (filter-BelowLimit (λ c. not (c.id == card.id)) old.cards b) in
      elim (Bool-cases (card.ancestor_hash == zero_hash)) [
        | inl e ↦ rw e (place_with-Handled old s card _ none _ (refused s x h) below)
        | inr e ↦ rw e (place_on-Handled old s card _ x _ h refl below)
      ]

  pub recreate-Handled :
      (old : Flush S) (s : S) (card : Card) (x : ClientError)
      → push_card request old.server card ≡ (s, err x)
      → HandledOr blake3 now request old card
          (recreate request blake3 random now (record old { server = s }) card)
  unfolding recreate upsert_each
  recreate-Handled old s card x h =
      elim (Option-cases (rebuild_card blake3 now card card.priority none)) [
        | inl e ↦ absurd (recreated-some blake3 now card card.priority e)
        | inr (d, e) ↦
            let k = rebuild_card-HasEdit blake3 now card card.priority none d e in
            let i = rebuild_card-id blake3 now card card.priority none d e in
            rw (e, recreate)
              (settled-Handled blake3 now request old card d d _ [] s none (push_card request s d) k
                i k i (refused s x h) (λ s' root q. inl (root, q, refl))
                (λ s' y q. pushed s none d y (refused s x h) k i q) refl)
      ]

  pub rebase-Handled :
      (old : Flush S) (s : S) (card server_card : Card)
      → Mismatch blake3 now request card old.server s server_card
      → HandledOr blake3 now request old card
          (rebase request blake3 random now (record old { server = s }) card server_card)
  unfolding rebase upsert_each
  rebase-Handled old s card server_card h =
      elim (Option-cases (rebuild_card blake3 now card card.priority (some server_card))) [
        | inl e ↦
            rw (e, rebase)
              (rebuild_card-Panics old s card card.priority (some server_card)
                (named s server_card h) e)
        | inr (d, e) ↦ rw (e, rebase) (settled_rebase-Handled d e (push_card request s d) refl)
      ]
    where
      settled_rebase-Handled :
          (d : Card)
          → rebuild_card blake3 now card card.priority (some server_card) ≡ some d
          → (m : S × Result ClientError RootState) → push_card request s d ≡ m
          → Handled blake3 now request old card (settled_rebase old.cards d card m)
      settled_rebase-Handled d e (s', ok root) q = record {
        edit = rebuild_card-HasEdit blake3 now card card.priority (some server_card) d e;
        before = s;
        ancestor = some server_card;
        shifted = [];
        asked_for = named s server_card h;
        id = rebuild_card-id blake3 now card card.priority (some server_card) d e;
        accepted = inl (root, q, refl);
        cards = refl;
      }
      settled_rebase-Handled d e (s', err ClientError.connection_lost) q = record {
        edit = HasEdit-refl card;
        id = refl;
        cards = refl;
        why = inr (
            pushed s (some server_card) d _ (named s server_card h)
              (rebuild_card-HasEdit blake3 now card card.priority (some server_card) d e)
              (rebuild_card-id blake3 now card card.priority (some server_card) d e) q);
      }
      settled_rebase-Handled d e (s', err (ClientError.protocol x)) q =
          rejected s server_card d _ h e q (cc) refl
      settled_rebase-Handled d e (s', err ClientError.unexpected_response) q =
          rejected s server_card d _ h e q (cc) refl
      settled_rebase-Handled d e (s', err (ClientError.version_mismatch v)) q =
          rejected s server_card d _ h e q (cc) refl
