-- ===== src/Web/Push/Outcomes.antt =====
-- What `push_card_or_queue` of clients/wasm/src/state/sync.rs may do with an edit, and its second push.
use blaze_list.Prelude.{◌≤◌, ℕ, ◌≡◌, refl, inl, inr, ◌⊎◌, Option, none, some, List, Option-cases}
use blaze_list.Prelude.Result.{Result, ok, err}
use blaze_list.Protocol.Types.{Hash, DateTime}
use blaze_list.Protocol.Card.{Card}
use blaze_list.Protocol.Messages.{Request, Response, RootState}
use blaze_list.Client.Requests.{ClientError, push_card}
use blaze_list.Web.Queue.{rebuild_card, upsert_card}
use blaze_list.Web.Queue.Fates.{
  HasEdit, HasEdit-refl, rebuild_card-HasEdit, rebuild_card-id, rebuild_card-none, recreated-some,
  subject,
}
use blaze_list.Web.Queue.Steps.{Asked, untouched, refused, named, Mismatch, Failed, pushed}
use blaze_list.Web.Push.{Local, clear_queued_card, second_push}

module _ (blake3 : List ℕ → Hash) (now : DateTime) {S : Type 0}
    (request : S → Request → S × Result ClientError Response) where
  -- A version of the card with the edit that the server accepted, where the queue has none for it.
  pub record Landed (old : Local S) (card : Card) (new : Local S) : Type 0 where
    pub version : Card
    pub edit : HasEdit card version
    pub start : S
    pub before : S
    pub after : S
    pub root : RootState
    pub ancestor : Option Card
    pub connected : old.server ≡ some start
    pub asked_for : Asked blake3 now request card start before ancestor
    pub id : version.id ≡ subject card ancestor
    pub accepted : push_card request before version ≡ (after, ok root)
    pub server : new.server ≡ some after
    pub queue : new.offline_queue ≡ clear_queued_card old.offline_queue card.id

  -- A version of the card with the edit that waits in the queue, last and the only one of its card.
  pub record Waits (old : Local S) (card : Card) (new : Local S) : Type 0 where
    pub version : Card
    pub edit : HasEdit card version
    pub id : version.id ≡ card.id
    pub queue : new.offline_queue ≡ upsert_card version old.offline_queue
    pub why :
        ((old.server ≡ none) × (new.server ≡ none))
        ⊎ ((start : S) × (s : S) × (old.server ≡ some start)
            × (new.server ≡ some s)
            × Failed blake3 now request card start s)

  abbrev pub Safe : Local S → Card → Local S → Type 0
  Safe old card new = Landed old card new ⊎ Waits old card new

  abbrev pub SafeOrLimit : Local S → Card → Option (Local S) → Type 0
  SafeOrLimit old card none =
      (start : S) × (s : S) × (c : Card) × (old.server ≡ some start)
      × Mismatch blake3 now request card start s c
      × (9223372036854775807 ≤ c.count.value)
  SafeOrLimit old card (some new) = Safe old card new

  second_push-Safe :
      (st : Local S) (card version fallback : Card) (start s : S) (ancestor : Option Card)
      (m : S × Result ClientError RootState)
      → st.server ≡ some start
      → Asked blake3 now request card start s ancestor
      → HasEdit card version
      → version.id ≡ subject card ancestor
      → HasEdit card fallback
      → fallback.id ≡ card.id
      → push_card request s version ≡ m
      → Safe st card (second_push st card.id version fallback m)
  second_push-Safe st card version fallback start s ancestor (s', ok root) c a h i k j q =
      inl (record {
        version = version;
        edit = h;
        start = start;
        before = s;
        after = s';
        root = root;
        ancestor = ancestor;
        connected = c;
        asked_for = a;
        id = i;
        accepted = q;
        server = refl;
        queue = refl;
      })
  second_push-Safe st card version fallback start s ancestor (s', err e) c a h i k j q =
      inr (record {
        version = fallback;
        edit = k;
        id = j;
        queue = refl;
        why = inr (start, s', c, refl, pushed s ancestor version e a h i q);
      })

  pub rebased-Safe :
      (st : Local S) (card server_card : Card) (start s : S)
      → st.server ≡ some start
      → Mismatch blake3 now request card start s server_card
      → SafeOrLimit st card (elim (rebuild_card blake3 now card card.priority (some server_card)) [
        | none ↦ none
        | some v ↦ some (second_push st card.id v card (push_card request s v))
      ])
  rebased-Safe st card server_card start s c q =
      let o = rebuild_card blake3 now card card.priority (some server_card) in
      elim (Option-cases o) [
        | inl e ↦ rw e (
          start,
          s,
          server_card,
          c,
          q,
          rebuild_card-none blake3 now card server_card card.priority e,
        )
        | inr (v, e) ↦ rw e (
            second_push-Safe st card v card start s (some server_card) (push_card request s v) c
              (named s server_card q)
              (rebuild_card-HasEdit blake3 now card card.priority (some server_card) v e)
              (rebuild_card-id blake3 now card card.priority (some server_card) v e)
              (HasEdit-refl card) refl refl)
      ]

  pub recreated-Safe :
      (st : Local S) (card : Card) (start s : S) (x : ClientError)
      → st.server ≡ some start
      → push_card request start card ≡ (s, err x)
      → SafeOrLimit st card (elim (rebuild_card blake3 now card card.priority none) [
        | none ↦ none
        | some v ↦ some (second_push st card.id v v (push_card request s v))
      ])
  recreated-Safe st card start s x c q =
      elim (Option-cases (rebuild_card blake3 now card card.priority none)) [
        | inl e ↦ absurd (recreated-some blake3 now card card.priority e)
        | inr (v, e) ↦
            let h = rebuild_card-HasEdit blake3 now card card.priority none v e in
            let i = rebuild_card-id blake3 now card card.priority none v e in
            rw e (
              second_push-Safe st card v v start s none (push_card request s v) c (refused s x q) h
                i h i refl)
      ]

  pub refused-Safe :
      (st : Local S) (card : Card) (start s : S) (e : ClientError)
      → st.server ≡ some start
      → push_card request start card ≡ (s, err e)
      → Safe st card
          (record st { server = some s; offline_queue = upsert_card card st.offline_queue })
  refused-Safe st card start s e k h = inr (record {
    version = card;
    edit = HasEdit-refl card;
    id = refl;
    queue = refl;
    why = inr (start, s, k, refl, pushed start none card e untouched (HasEdit-refl card) refl h);
  })
