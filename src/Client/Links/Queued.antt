-- ===== src/Client/Links/Queued.antt =====
-- The set, the queue and the result of the loop of `expand_linked_cards`, and the rounds left.
use blaze_list.Prelude.{
  ℕ, suc, ◌+◌, ◌≤◌, ◌≡◌, refl, ap, inl, inr, false, ◌||◌, List, [], ◌∷◌, ◌++◌, length,
  length-append, contains, contains-append, In, Bool-cases, ◌==◌, ==_iff, ==_refl, arith,
  if◌then◌else◌,
}
use blaze_list.Protocol.Types.{Uuid}
use blaze_list.Client.Links.{enqueue_each}
use blaze_list.Client.Links.Found.{IsDistinct}

-- The members of a list that are not in another.
pub unseen : List Uuid → List Uuid → ℕ
unseen visited [] = 0
unseen visited (u ∷ us) = (if contains visited u then 0 else 1) + unseen visited us

unseen-cons_le : (x : Uuid) (visited us : List Uuid) → unseen (x ∷ visited) us ≤ unseen visited us
unfolding unseen
unseen-cons_le x visited [] = omega arith
unseen-cons_le x visited (u ∷ us) = ground (arith, unseen-cons_le x visited us)

unseen-cons :
    (x : Uuid) (visited us : List Uuid)
    → In x us
    → contains visited x ≡ false
    → suc (unseen (x ∷ visited) us) ≤ unseen visited us
unfolding unseen
unseen-cons x visited [] m h = cc
unseen-cons x visited (u ∷ us) m h =
    ground (arith, unseen-cons x visited us, unseen-cons_le x visited us, ==_iff x u, ==_iff u x)

pub unseen_le : (visited us : List Uuid) → unseen visited us ≤ length us
unfolding unseen
unseen_le visited [] = omega arith
unseen_le visited (u ∷ us) = ground (arith, unseen_le visited us)

IsDistinct-snoc :
    (xs : List Uuid) (x : Uuid) → IsDistinct xs → contains xs x ≡ false → IsDistinct (xs ++ x ∷ [])
IsDistinct-snoc [] x d h = (refl, tt)
IsDistinct-snoc (y ∷ ys) x d h = (
  ground (arith, contains-append ys (x ∷ []) y, ==_iff x y, ==_iff y x),
  IsDistinct-snoc ys x d.1 (ground arith),
)

pub append_assoc : (xs ys zs : List Uuid) → (xs ++ ys) ++ zs ≡ xs ++ (ys ++ zs)
append_assoc [] ys zs = refl
append_assoc (x ∷ xs) ys zs = ap (λ l. x ∷ l) (append_assoc xs ys zs)

pub append-nil : (xs : List Uuid) → xs ++ [] ≡ xs
append-nil [] = refl
append-nil (x ∷ xs) = ap (λ l. x ∷ l) (append-nil xs)

-- What has been met is the start, what is done and what waits, each once.
pub record Queued (start : Uuid) (result visited queue : List Uuid) : Type 0 where
  pub members : (x : Uuid) → contains visited x ≡ (x == start || contains (result ++ queue) x)
  pub distinct : IsDistinct (result ++ queue)
  pub apart : contains (result ++ queue) start ≡ false

pub contains-enqueue_each :
    (ids visited queue : List Uuid) (x : Uuid)
    → contains (enqueue_each ids (visited, queue)).0 x ≡ (contains visited x || contains ids x)
unfolding enqueue_each
contains-enqueue_each [] visited queue x = ground arith
contains-enqueue_each (id ∷ ids) visited queue x = elim (Bool-cases (contains visited id)) [
  | inl old ↦
      rw (old, enqueue_each)
        (ground (arith, contains-enqueue_each ids visited queue x, ==_iff x id))
  | inr new ↦
      rw (new, enqueue_each)
        (ground (arith, contains-enqueue_each ids (id ∷ visited) (queue ++ id ∷ []) x))
]

Queued-snoc :
    (start : Uuid) (result visited queue : List Uuid) (id : Uuid)
    → Queued start result visited queue
    → contains visited id ≡ false
    → Queued start result (id ∷ visited) (queue ++ id ∷ [])
Queued-snoc start result visited queue id q new =
    let flat = append_assoc result queue (id ∷ []) in
    let fresh : contains (result ++ queue) id ≡ false = ground (arith, q.members id) in
    record {
      members = λ x.
          rw (← flat) (ground (arith, q.members x, contains-append (result ++ queue) (id ∷ []) x));
      distinct = rw (← flat) (IsDistinct-snoc (result ++ queue) id q.distinct fresh);
      apart = rw (← flat) (
          ground (
            arith,
            q.members id,
            q.apart,
            contains-append (result ++ queue) (id ∷ []) start,
            ==_iff start id,
            ==_iff id start,
          ));
    }

pub enqueue_each-Queued :
    (start : Uuid) (result ids visited queue : List Uuid)
    → Queued start result visited queue
    → Queued start result
        (enqueue_each ids (visited, queue)).0
        (enqueue_each ids (visited, queue)).1
unfolding enqueue_each
enqueue_each-Queued start result [] visited queue q = q
enqueue_each-Queued start result (id ∷ ids) visited queue q =
    elim (Bool-cases (contains visited id)) [
      | inl old ↦ rw (old, enqueue_each) (enqueue_each-Queued start result ids visited queue q)
      | inr new ↦
          rw (new, enqueue_each)
            (enqueue_each-Queued start result ids (id ∷ visited) (queue ++ id ∷ [])
              (Queued-snoc start result visited queue id q new))
    ]

-- The rounds that are left at most.
abbrev pub work : List Uuid → List Uuid × List Uuid → ℕ
work known s = length s.1 + unseen s.0 known

pub enqueue_each-work :
    (known ids visited queue : List Uuid)
    → ((x : Uuid) → In x ids → In x known)
    → work known (enqueue_each ids (visited, queue)) ≤ work known (visited, queue)
unfolding enqueue_each
enqueue_each-work known [] visited queue k = omega arith
enqueue_each-work known (id ∷ ids) visited queue k =
    let k' : (x : Uuid) → In x ids → In x known = λ x m. k x (ground arith) in
    elim (Bool-cases (contains visited id)) [
      | inl old ↦ rw (old, enqueue_each) (enqueue_each-work known ids visited queue k')
      | inr new ↦
          rw (new, enqueue_each)
            (omega (
              arith,
              enqueue_each-work known ids (id ∷ visited) (queue ++ id ∷ []) k',
              length-append queue (id ∷ []),
              unseen-cons id visited known (k id (rw (==_refl id) refl)) new,
            ))
    ]
