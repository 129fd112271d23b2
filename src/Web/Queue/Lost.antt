-- ===== src/Web/Queue/Lost.antt =====
-- The requests of `flush_offline_queue` in clients/wasm/src/state/sync.rs once the connection is lost.
use blaze_list.Prelude.{
  ℕ, ◌≡◌, refl, inl, inr, false, Option, none, some, List, [], ◌∷◌, Option-cases, Bool-cases, ◌==◌,
  subst, sym, arith,
}
use blaze_list.Prelude.Result.{Result, ok, err}
use blaze_list.Protocol.Types.{Hash, DateTime, Text, zero_hash}
use blaze_list.Protocol.Card.{Card}
use blaze_list.Protocol.Messages.{Request, Response, RootState}
use blaze_list.Client.Requests.{ClientError, push_card}
use blaze_list.Client.Priority.{build_shifted_versions, simple, rebalanced, Placement}
use blaze_list.Web.Queue.{
  Flush, rebuild_card, place_with, place_on, collide, rebase, recreate, on_pushed, flush_card,
  flush_each,
}
use blaze_list.Web.Queue.Pushed.{on_pushed-by}
use blaze_list.Web.Queue.Kept.{flush_card_lost, flush_card_on}
use blaze_list.Web.Queue.Watched.{
  Watched, watch, IsCalm, CalmFlush, push_card-Answered, push_batch-Answered, get_card-Answered,
  settled-IsCalm, settled_rebase-IsCalm, calm, still_there, Fresh, Answered, CalmRound,
}

module _ {S : Type 0} (request : S → Request → S × Result ClientError Response)
    (blake3 : List ℕ → Hash) (random : ℕ → ℕ) (now : DateTime) (to_lowercase : Text → Text) where
  place_with-CalmRound :
      (st : Flush (Watched S)) (card : Card) (cards : List Card) (ancestor : Option Card)
      (p : Placement)
      → Fresh request st.server
      → CalmRound request (place_with (watch request) blake3 random now st card cards ancestor p)
  unfolding place_with
  place_with-CalmRound st card cards ancestor (simple p) f =
      elim (Option-cases (rebuild_card blake3 now card p ancestor)) [
        | inl e ↦ rw (e, place_with) tt
        | inr (v, e) ↦
            rw (e, place_with)
              (settled-IsCalm request _ _ _ card (push_card (watch request) st.server v)
                (push_card-Answered request st.server v f))
      ]
  place_with-CalmRound st card cards ancestor (rebalanced p shifted) f =
      elim (Option-cases (rebuild_card blake3 now card p ancestor)) [
        | inl e ↦ rw (e, place_with) tt
        | inr (v, e) ↦ elim (Option-cases (build_shifted_versions blake3 shifted cards now)) [
          | inl e' ↦ rw (e, e', place_with) tt
          | inr (ds, e') ↦
              rw (e, e', place_with)
                (settled-IsCalm request _ _ _ card _ (push_batch-Answered request st.server _ f))
        ]
      ]

  place_on-CalmRound :
      (st : Flush (Watched S)) (card : Card) (cards : List Card)
      (m : Watched S × Result ClientError Card)
      → Answered request m
      → st.hit_connection_error ≡ false
      → CalmRound request (place_on (watch request) blake3 random now st card cards m)
  unfolding place_on
  place_on-CalmRound st card cards (w, ok c) (n, inl l) h =
      place_with-CalmRound _ card cards (some c) _ (l, n)
  place_on-CalmRound st card cards (w, ok c) (n, inr x) h = absurd (cc (x))
  place_on-CalmRound st card cards (w, err ClientError.connection_lost) a h =
      calm request {A = Card} w _ (err ClientError.connection_lost) a refl
  place_on-CalmRound st card cards (w, err (ClientError.protocol x)) a h =
      calm request {A = Card} w _ (err (ClientError.protocol x)) a (sym h)
  place_on-CalmRound st card cards (w, err ClientError.unexpected_response) a h =
      calm request {A = Card} w _ (err ClientError.unexpected_response) a (sym h)
  place_on-CalmRound st card cards (w, err (ClientError.version_mismatch x)) a h =
      calm request {A = Card} w _ (err (ClientError.version_mismatch x)) a (sym h)

  collide-CalmRound :
      (st : Flush (Watched S)) (card : Card)
      → Fresh request st.server
      → st.hit_connection_error ≡ false
      → CalmRound request (collide (watch request) blake3 random now to_lowercase st card)
  unfolding collide
  collide-CalmRound st card f h = elim (Bool-cases (card.ancestor_hash == zero_hash)) [
    | inl e ↦ rw e (place_with-CalmRound st card _ none _ f)
    | inr e ↦
        rw e (place_on-CalmRound st card _ _ (get_card-Answered request st.server card.id f) h)
  ]

  recreate-CalmRound :
      (st : Flush (Watched S)) (card : Card)
      → Fresh request st.server
      → CalmRound request (recreate (watch request) blake3 random now st card)
  unfolding recreate
  recreate-CalmRound st card f =
      elim (Option-cases (rebuild_card blake3 now card card.priority none)) [
        | inl e ↦ rw (e, recreate) tt
        | inr (v, e) ↦
            rw (e, recreate)
              (settled-IsCalm request _ _ _ v (push_card (watch request) st.server v)
                (push_card-Answered request st.server v f))
      ]

  rebase-CalmRound :
      (st : Flush (Watched S)) (card server_card : Card)
      → Fresh request st.server
      → CalmRound request (rebase (watch request) blake3 random now st card server_card)
  unfolding rebase
  rebase-CalmRound st card server_card f =
      elim (Option-cases (rebuild_card blake3 now card card.priority (some server_card))) [
        | inl e ↦ rw (e, rebase) tt
        | inr (v, e) ↦
            rw (e, rebase)
              (settled_rebase-IsCalm request _ v card (push_card (watch request) st.server v)
                (push_card-Answered request st.server v f))
      ]

  on_pushed-CalmRound :
      (st : Flush (Watched S)) (card : Card)
      → st.hit_connection_error ≡ false
      → (m : Watched S × Result ClientError RootState) → Answered request m
      → CalmRound request (on_pushed (watch request) blake3 random now to_lowercase st card m)
  on_pushed-CalmRound st card h =
      on_pushed-by (watch request) blake3 random now to_lowercase st card
        (λ m r. Answered request m → CalmRound request r)
        (λ w root a. (a.0, inl (still_there request w _ a (cc))))
        (λ w x y a.
          collide-CalmRound (record st { server = w }) card (still_there request w _ a (cc), a.0) h)
        (λ w c a.
          rebase-CalmRound (record st { server = w }) card c (still_there request w _ a (cc), a.0))
        (λ w a.
          recreate-CalmRound (record st { server = w }) card (still_there request w _ a (cc), a.0))
        (λ w a. (a.0, inl (still_there request w _ a (cc)))) (λ w e a. (a.0, inr refl))

  flush_card-CalmRound :
      (st : Flush (Watched S)) (card : Card)
      → IsCalm request st
      → CalmRound request (flush_card (watch request) blake3 random now to_lowercase st card)
  flush_card-CalmRound st card (n, k) = elim (Bool-cases st.hit_connection_error) [
    | inl e ↦
        subst (CalmRound request)
          (sym (flush_card_lost blake3 now (watch request) random to_lowercase st card e)) (n, k)
    | inr e ↦
        let there : st.server.lost ≡ false = ground arith in
        subst (CalmRound request)
          (sym (flush_card_on blake3 now (watch request) random to_lowercase st card e))
          (on_pushed-CalmRound st card e _ (push_card-Answered request st.server card (there, n)))
  ]

  -- Where no request came late and a lost connection is flagged, a flush that ends has made no
  -- request after one that lost the connection, and a lost connection is flagged.
  pub flush_each-IsCalm :
      (st : Flush (Watched S)) (queue : List Card)
      → IsCalm request st
      → CalmFlush request (flush_each (watch request) blake3 random now to_lowercase st queue)
  unfolding flush_each
  flush_each-IsCalm st [] c = c
  flush_each-IsCalm st (card ∷ queue) c =
      let here = flush_card-CalmRound st card c in
      elim (Option-cases (flush_card (watch request) blake3 random now to_lowercase st card)) [
        | inl e ↦ rw (e, flush_each) tt
        | inr ((st', f), e) ↦
            let rest = flush_each-IsCalm st' queue (subst (CalmRound request) e here) in
            elim (Option-cases
              (flush_each (watch request) blake3 random now to_lowercase st' queue)) [
                | inl e' ↦ rw (e, e', flush_each) tt
                | inr (r, e') ↦ rw (e, e', flush_each) (subst (CalmFlush request) e' rest)
              ]
      ]
