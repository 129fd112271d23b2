-- ===== src/Web/Queue/Watched.antt =====
-- A transport that is watched: what a flush in clients/wasm/src/state/sync.rs learns of a lost
-- connection from the answers.
use blaze_list.Prelude.{
  ℕ, ◌≡◌, refl, ◌⊎◌, inl, inr, Bool, true, false, ◌||◌, Option, none, some, List, ◌≢◌, arith,
}
use blaze_list.Prelude.Result.{Result, ok, err, Result-cases}
use blaze_list.Protocol.Card.{Card}
use blaze_list.Protocol.Extract.{ResponseExtractError, into_root, into_card}
use blaze_list.Protocol.Messages.{Request, Response, RootState, PushItem}
use blaze_list.Client.Requests.{ClientError, extracted, push_card, push_batch, get_card}
use blaze_list.Web.Queue.{Fate, Flush, settled, settled_rebase}

-- The other side with what has been seen of it: a request that lost the connection, and a request
-- that came after one.
pub record Watched (S : Type 0) : Type 0 where
  pub inner : S
  pub lost : Bool
  pub late : Bool

abbrev pub is_lost : {A : Type 0} → Result ClientError A → Bool
is_lost (err ClientError.connection_lost) = true
is_lost (err e) = false
is_lost (ok a) = false

module _ {S : Type 0} (request : S → Request → S × Result ClientError Response) where
  abbrev pub watch : Watched S → Request → Watched S × Result ClientError Response
  watch w req =
      let (s, answer) = request w.inner req in
      (record { inner = s; lost = w.lost || is_lost answer; late = w.late || w.lost }, answer)

  abbrev pub Fresh : Watched S → Type 0
  Fresh w = (w.lost ≡ false) × (w.late ≡ false)

  -- No request came late, and only an answer that says so lost the connection.
  abbrev pub Answered : {A : Type 0} → Watched S × Result ClientError A → Type 0
  Answered (w, r) = (w.late ≡ false) × ((w.lost ≡ false) ⊎ (r ≡ err ClientError.connection_lost))

  extracted-Answered :
      {A : Type 0} (into : Response → Result ResponseExtractError A)
      (m : S × Result ClientError Response) (w : Watched S)
      → Fresh w
      → Answered (
          extracted into
            (record { inner = m.0; lost = w.lost || is_lost m.1; late = w.late || w.lost }, m.1))
  extracted-Answered into (s, ok r) w (l, n) = elim (Result-cases (into r)) [
    | inl (a, e) ↦ rw (e, extracted) (ground arith, inl (ground arith))
    | inr (x, e) ↦ rw (e, extracted) (ground arith, inl (ground arith))
  ]
  extracted-Answered into (s, err ClientError.connection_lost) w (l, n) = (ground arith, inr refl)
  extracted-Answered into (s, err (ClientError.protocol x)) w (l, n) =
      (ground arith, inl (ground arith))
  extracted-Answered into (s, err ClientError.unexpected_response) w (l, n) =
      (ground arith, inl (ground arith))
  extracted-Answered into (s, err (ClientError.version_mismatch x)) w (l, n) =
      (ground arith, inl (ground arith))

  pub push_card-Answered : (w : Watched S) (c : Card) → Fresh w → Answered (push_card watch w c)
  unfolding push_card
  push_card-Answered w c f = extracted-Answered into_root (request w.inner _) w f

  pub push_batch-Answered :
      (w : Watched S) (items : List PushItem) → Fresh w → Answered (push_batch watch w items)
  unfolding push_batch
  push_batch-Answered w items f = extracted-Answered into_root (request w.inner _) w f

  pub get_card-Answered : (w : Watched S) (id : ℕ) → Fresh w → Answered (get_card watch w id)
  unfolding get_card
  get_card-Answered w id f = extracted-Answered into_card (request w.inner _) w f

  pub still_there :
      {A : Type 0} (w : Watched S) (r : Result ClientError A)
      → Answered (w, r)
      → r ≢ err ClientError.connection_lost
      → w.lost ≡ false
  still_there w r (n, inl l) h = l
  still_there w r (n, inr e) h = absurd (h e)

  -- No request came late, and where the connection is lost the flush knows it.
  abbrev pub IsCalm : Flush (Watched S) → Type 0
  IsCalm st =
      (st.server.late ≡ false) × ((st.server.lost ≡ false) ⊎ (st.hit_connection_error ≡ true))

  abbrev pub CalmRound : Option (Flush (Watched S) × Fate) → Type 0
  CalmRound none = Unit
  CalmRound (some r) = IsCalm r.0

  abbrev pub CalmFlush : Option (Flush (Watched S) × List Fate) → Type 0
  CalmFlush none = Unit
  CalmFlush (some r) = IsCalm r.0

  pub calm :
      {A : Type 0} (w : Watched S) (hit : Bool) (r : Result ClientError A)
      → Answered (w, r)
      → is_lost r ≡ hit
      → (w.late ≡ false) × ((w.lost ≡ false) ⊎ (hit ≡ true))
  calm w hit r (n, inl l) h = (n, inl l)
  calm w hit r (n, inr e) h = (n, inr (cc))

  pub settled-IsCalm :
      (old new : List Card) (fate : Fate) (back : Card)
      (m : Watched S × Result ClientError RootState)
      → Answered m
      → IsCalm (settled old new fate back m).0
  settled-IsCalm old new fate back (w, ok root) h = calm w _ (ok root) h refl
  settled-IsCalm old new fate back (w, err ClientError.connection_lost) h =
      calm w _ (err ClientError.connection_lost) h refl
  settled-IsCalm old new fate back (w, err (ClientError.protocol x)) h =
      calm w _ (err (ClientError.protocol x)) h refl
  settled-IsCalm old new fate back (w, err ClientError.unexpected_response) h =
      calm w _ (err ClientError.unexpected_response) h refl
  settled-IsCalm old new fate back (w, err (ClientError.version_mismatch x)) h =
      calm w _ (err (ClientError.version_mismatch x)) h refl

  pub settled_rebase-IsCalm :
      (cards : List Card) (rebased card : Card) (m : Watched S × Result ClientError RootState)
      → Answered m
      → IsCalm (settled_rebase cards rebased card m).0
  settled_rebase-IsCalm cards rebased card (w, ok root) h = calm w _ (ok root) h refl
  settled_rebase-IsCalm cards rebased card (w, err ClientError.connection_lost) h =
      calm w _ (err ClientError.connection_lost) h refl
  settled_rebase-IsCalm cards rebased card (w, err (ClientError.protocol x)) h =
      calm w _ (err (ClientError.protocol x)) h refl
  settled_rebase-IsCalm cards rebased card (w, err ClientError.unexpected_response) h =
      calm w _ (err ClientError.unexpected_response) h refl
  settled_rebase-IsCalm cards rebased card (w, err (ClientError.version_mismatch x)) h =
      calm w _ (err (ClientError.version_mismatch x)) h refl
