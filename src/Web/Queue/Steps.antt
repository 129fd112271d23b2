-- ===== src/Web/Queue/Steps.antt =====
-- What one round of `flush_offline_queue` in clients/wasm/src/state/sync.rs may do with a queued card,
-- said of the requests and their answers, and the rounds one after the other.
use blaze_list.Prelude.{
  ℕ, ◌≤◌, ◌≡◌, ◌≢◌, refl, ◌⊎◌, inr, true, Option, none, some, List, [], ◌∷◌, ◌++◌, map,
}
use blaze_list.Prelude.Result.{Result, ok, err}
use blaze_list.Protocol.Types.{Hash, DateTime}
use blaze_list.Protocol.Card.{Card}
use blaze_list.Protocol.Messages.{Request, Response, ProtocolError, PushError, PushItem, RootState}
use blaze_list.Client.Requests.{ClientError, push_card, push_batch, get_card}
use blaze_list.Web.Queue.{
  Fate, sent, kept, dropped, Flush, rebuild_card, upsert_card, upsert_each, settled,
}
use blaze_list.Web.Queue.Fates.{HasEdit, subject, BelowLimit}

module _ (blake3 : List ℕ → Hash) (now : DateTime) {S : Type 0}
    (request : S → Request → S × Result ClientError Response) where
  abbrev pub Mismatch : Card → S → S → Card → Type 0
  Mismatch card s s' c = push_card request s card ≡ (
    s',
    err (ClientError.protocol (ProtocolError.push_failed (PushError.card_ancestor_mismatch c))),
  )

  -- What the client knows before it pushes: nothing, that the card was refused, or the server's
  -- version of it.
  pub data Asked (card : Card) (s : S) : S → Option Card → Type 0 where
    untouched : Asked card s s none
    refused :
        (s' : S) (e : ClientError) → push_card request s card ≡ (s', err e) → Asked card s s' none
    named : (s' : S) (c : Card) → Mismatch card s s' c → Asked card s s' (some c)
    fetched :
        (s' s'' : S) (e : ClientError) (c : Card)
        → push_card request s card ≡ (s', err e)
        → get_card request s' card.id ≡ (s'', ok c)
        → Asked card s s'' (some c)

  -- The server accepted a version, after the versions of shifted cards.
  abbrev pub Accepted : S → Card → List Card → S → Type 0
  Accepted s v shifted s' =
      ((root : RootState) × (push_card request s v ≡ (s', ok root)) × (shifted ≡ []))
      ⊎ ((root : RootState) × (push_batch request s
              (map (λ (c : Card). PushItem.cards (c ∷ [])) shifted ++ PushItem.cards (v ∷ []) ∷ [])
            ≡ (s', ok root)))

  -- A request for the card failed: a push of a version with the edit, alone or after shifted cards, or
  -- the question for the server's version.
  pub data Failed (card : Card) (s s' : S) : Type 0 where
    pushed :
        (before : S) (ancestor : Option Card) (v : Card) (e : ClientError)
        → Asked card s before ancestor
        → HasEdit card v
        → v.id ≡ subject card ancestor
        → push_card request before v ≡ (s', err e)
        → Failed card s s'
    batched :
        (before : S) (ancestor : Option Card) (items : List PushItem) (v : Card) (e : ClientError)
        → Asked card s before ancestor
        → HasEdit card v
        → v.id ≡ subject card ancestor
        → push_batch request before (items ++ PushItem.cards (v ∷ []) ∷ []) ≡ (s', err e)
        → Failed card s s'
    asked :
        (before : S) (x e : ClientError)
        → push_card request s card ≡ (before, err x)
        → get_card request before card.id ≡ (s', err e)
        → Failed card s s'

  -- A version with the edit, of the card, that the server accepted and the client holds.
  pub record Sent (st : Flush S) (card : Card) (st' : Flush S) (v : Card) : Type 0 where
    pub edit : HasEdit card v
    pub before : S
    pub ancestor : Option Card
    pub shifted : List Card
    pub asked_for : Asked card st.server before ancestor
    pub id : v.id ≡ subject card ancestor
    pub accepted : Accepted before v shifted st'.server
    pub cards : st'.cards ≡ upsert_card v (upsert_each st.cards shifted)

  -- A version with the edit that stays in the queue, since the connection was lost before or a request
  -- failed.
  pub record Kept (st : Flush S) (card : Card) (st' : Flush S) (v : Card) : Type 0 where
    pub edit : HasEdit card v
    pub id : v.id ≡ card.id
    pub cards : st'.cards ≡ st.cards
    pub why : ((st.hit_connection_error ≡ true) × (st' ≡ st)) ⊎ Failed card st.server st'.server

  -- The edit goes: the server has deleted the card, or it has a newer version and rejects the edit on
  -- top of that.
  pub data Dropped (st : Flush S) (card : Card) (st' : Flush S) : Type 0 where
    deleted :
        push_card request st.server card ≡ (
          st'.server,
          err (ClientError.protocol (ProtocolError.push_failed PushError.already_deleted)),
        )
        → st'.cards ≡ st.cards
        → Dropped st card st'
    rejected :
        (s : S) (server_card rebased : Card) (e : ClientError)
        → Mismatch card st.server s server_card
        → rebuild_card blake3 now card card.priority (some server_card) ≡ some rebased
        → push_card request s rebased ≡ (st'.server, err e)
        → e ≢ ClientError.connection_lost
        → st'.cards ≡ st.cards
        → Dropped st card st'

  abbrev pub Handled : Flush S → Card → Flush S × Fate → Type 0
  Handled st card (st', sent v) = Sent st card st' v
  Handled st card (st', kept v) = Kept st card st' v
  Handled st card (st', dropped) = Dropped st card st'

  -- A panic: the server's version that the edit goes on top of has the largest count, or a card of the
  -- client's, which may have to be shifted.
  abbrev pub Panics : Flush S → Card → Type 0
  Panics st card =
      ((s : S) × (c : Card) × Asked card st.server s (some c)
        × (9223372036854775807 ≤ c.count.value))
      ⊎ (¬ BelowLimit st.cards)

  abbrev pub HandledOr : Flush S → Card → Option (Flush S × Fate) → Type 0
  HandledOr st card none = Panics st card
  HandledOr st card (some r) = Handled st card r

  abbrev pub staying : Fate → List Card → List Card
  staying (sent v) left = left
  staying (kept v) left = v ∷ left
  staying dropped left = left

  -- The rounds over a queue, with what stays of it.
  pub data Follows : Flush S → List Card → Option (Flush S × List Card) → Type 0 where
    done : {st : Flush S} → Follows st [] (some (st, []))
    panics :
        {st : Flush S} {card : Card} {queue : List Card}
        → Panics st card
        → Follows st (card ∷ queue) none
    panics_later :
        {st st' : Flush S} {card : Card} {queue : List Card} (fate : Fate)
        → Handled st card (st', fate)
        → Follows st' queue none
        → Follows st (card ∷ queue) none
    round :
        {st st' st'' : Flush S} {card : Card} {queue left : List Card} (fate : Fate)
        → Handled st card (st', fate)
        → Follows st' queue (some (st'', left))
        → Follows st (card ∷ queue) (some (st'', staying fate left))

  pub settled-Handled :
      (st : Flush S) (card v back : Card) (new shifted : List Card) (before : S)
      (ancestor : Option Card) (m : S × Result ClientError RootState)
      → HasEdit card v
      → v.id ≡ subject card ancestor
      → HasEdit card back
      → back.id ≡ card.id
      → Asked card st.server before ancestor
      → ((s : S) (root : RootState) → m ≡ (s, ok root) → Accepted before v shifted s)
      → ((s : S) (e : ClientError) → m ≡ (s, err e) → Failed card st.server s)
      → new ≡ upsert_card v (upsert_each st.cards shifted)
      → Handled st card (settled st.cards new (sent v) back m)
  settled-Handled st card v back new shifted before ancestor (s, ok root) h i k j a f g n = record {
    edit = h;
    before = before;
    ancestor = ancestor;
    shifted = shifted;
    asked_for = a;
    id = i;
    accepted = f s root refl;
    cards = n;
  }
  settled-Handled st card v back new shifted before ancestor (s, err ClientError.connection_lost) h
        i k j a f g n =
      record { edit = k; id = j; cards = refl; why = inr (g s _ refl) }
  settled-Handled st card v back new shifted before ancestor (s, err (ClientError.protocol x)) h i k
        j a f g n =
      record { edit = k; id = j; cards = refl; why = inr (g s _ refl) }
  settled-Handled st card v back new shifted before ancestor
        (s, err ClientError.unexpected_response) h i k j a f g n =
      record { edit = k; id = j; cards = refl; why = inr (g s _ refl) }
  settled-Handled st card v back new shifted before ancestor
        (s, err (ClientError.version_mismatch x)) h i k j a f g n =
      record { edit = k; id = j; cards = refl; why = inr (g s _ refl) }
