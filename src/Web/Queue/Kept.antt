-- ===== src/Web/Queue/Kept.antt =====
-- What `flush_offline_queue` of clients/wasm/src/state/sync.rs does with the edits that are queued.
use blaze_list.Prelude.{
  ℕ, ◌≡◌, ap, true, false, Option, none, some, List, [], ◌∷◌, if◌then◌else◌, ◌==◌, ◌⊎◌, ltb, any,
  ◌&&◌,
}
use blaze_list.Prelude.Result.{Result}
use blaze_list.Protocol.Types.{Hash, DateTime, Text, zero_hash}
use blaze_list.Protocol.Card.{Card}
use blaze_list.Protocol.Messages.{Request, Response}
use blaze_list.Client.Requests.{ClientError, push_card}
use blaze_list.Web.Queue.{Fate, kept, Flush, on_pushed, flush_card, remaining_of}

-- A local version that is newer than a queued one, which is not the first of its card.
abbrev pub Superseded : List Card → Card → Type 0
Superseded local_cards queued =
    ((queued.ancestor_hash == zero_hash) ≡ false)
    × (any (λ (c : Card). c.id == queued.id && ltb queued.count.value c.count.value) local_cards
        ≡ true)

-- What is left of a queue, in its order, where only superseded cards go.
abbrev pub Reconciled : List Card → List Card → List Card → Type 0
Reconciled local_cards [] left = left ≡ []
Reconciled local_cards (c ∷ queue) left =
    ((rest : List Card) × (left ≡ c ∷ rest) × Reconciled local_cards queue rest)
    ⊎ (Superseded local_cards c × Reconciled local_cards queue left)

module _ (blake3 : List ℕ → Hash) (now : DateTime) {S : Type 0}
    (request : S → Request → S × Result ClientError Response) (random : ℕ → ℕ)
    (to_lowercase : Text → Text) where
  pub flush_card_lost :
      (st : Flush S) (card : Card)
      → st.hit_connection_error ≡ true
      → flush_card request blake3 random now to_lowercase st card ≡ some (st, kept card)
  unfolding flush_card
  flush_card_lost st card h =
      ap
        (λ b.
          if b
          then some (st, kept card)
          else on_pushed request blake3 random now to_lowercase st card
              (push_card request st.server card))
        h

  pub flush_card_on :
      (st : Flush S) (card : Card)
      → st.hit_connection_error ≡ false
      → flush_card request blake3 random now to_lowercase st card
        ≡ on_pushed request blake3 random now to_lowercase st card
            (push_card request st.server card)
  unfolding flush_card
  flush_card_on st card h =
      ap
        (λ b.
          if b
          then some (st, kept card)
          else on_pushed request blake3 random now to_lowercase st card
              (push_card request st.server card))
        h

  abbrev remaining : Option (Flush S × List Fate) → Option (Flush S × List Card)
  remaining none = none
  remaining (some (st, fates)) = some (st, remaining_of fates)

  abbrev pub outcome : Option (Flush S × List Card) → Option (S × List Card × List Card)
  outcome none = none
  outcome (some (st, left)) = some (st.server, st.cards, left)
