-- ===== src/Web/Burst/Versions.antt =====
-- What a burst is pushed as.
use blaze_list.Prelude.{
  ℕ, ◌<◌, ◌≡◌, refl, sym, ◌∙◌, ap, subst, Option, none, some, List, [], ◌∷◌, map, All, ◌==◌, ==_iff,
  ==_refl, arith, inl, inr, Bool-cases,
}
use blaze_list.Prelude.Int.{ℤ}
use blaze_list.Prelude.Btree.{map_get, map_get_below, keys, IsAscending}
use blaze_list.Protocol.Types.{Uuid, Hash, DateTime}
use blaze_list.Protocol.Bytes.{sort_ids}
use blaze_list.Protocol.Card.{Card}
use blaze_list.Protocol.Card.Versions.{IsNextOf, next-IsNextOf}
use blaze_list.Client.Sync.{card_id}
use blaze_list.Client.Sync.Laws.{held}
use blaze_list.Web.Burst.{
  PriorityBurst, new_burst, apply_moves, or_own, moved, build_siblings, build_versions,
}
use blaze_list.Web.Burst.Laws.{
  OwnBases, apply_moves-Knows, first_base, last_target, all_siblings, final_priority,
}

-- A version can follow.
abbrev pub HasNext : Card → Type 0
HasNext c = c.count.value < 9223372036854775807

abbrev pub OfSome : {A : Type 0} → (A → Type 0) → Option A → Type 0
OfSome P none = Unit
OfSome P (some a) = P a

-- What holds of each value that a map finds holds of all its values.
All-of_map_get :
    {V : Type 0} (P : V → Type 0) (m : List (ℕ × V))
    → IsAscending (keys m)
    → ((j : ℕ) → OfSome P (map_get j m))
    → All (λ (e : ℕ × V). P e.1) m
unfolding map_get
All-of_map_get P [] a h = tt
All-of_map_get P ((k, v) ∷ m) a h = (
  rw (==_refl k) at (h k),
  All-of_map_get P m a.1 λ j. elim (Bool-cases (j == k)) [
    | inl e ↦
        subst (λ i. OfSome P (map_get i m)) (sym ((==_iff j k).0 e)) (rw (map_get_below k m a.0) tt)
    | inr e ↦ rw e at (h j)
  ],
)

module _ (blake3 : List ℕ → Hash) (now : DateTime) where
  -- The next version of a card that differs in its priority and its time alone.
  pub record IsMoveOf (base : Card) (priority : ℤ) (c : Card) : Type 0 where
    next : IsNextOf blake3 base c
    content : c.content ≡ base.content
    priority_set : c.priority ≡ priority
    tags : c.tags ≡ sort_ids base.tags
    blazed : c.blazed ≡ base.blazed
    modified_at : c.modified_at ≡ now
    due_date : c.due_date ≡ base.due_date

  moved-IsMoveOf :
      (base : Card) (priority : ℤ)
      → HasNext base
      → (c : Card) × (moved blake3 now base priority ≡ some c) × IsMoveOf base priority c
  moved-IsMoveOf base priority h =
      let (c, e, n, content, p, tags, blazed, modified, due) =
        next-IsNextOf blake3 base base.content priority base.tags base.blazed now base.due_date h in
      (
        c,
        e,
        record {
          next = n;
          content = content;
          priority_set = p;
          tags = tags;
          blazed = blazed;
          modified_at = modified;
          due_date = due;
        },
      )

  -- The versions of siblings, one for each base in its order.
  Built : List (Uuid × Card) → List (Uuid × ℤ) → List Card → Type 0
  Built [] targets [] = Unit
  Built [] targets (c ∷ cs) = ⊥
  Built ((j, base) ∷ m) targets [] = ⊥
  Built ((j, base) ∷ m) targets (c ∷ cs) =
      (c.id ≡ j) × IsMoveOf base (or_own (map_get j targets) base) c × Built m targets cs

  build_siblings-Built :
      (m : List (Uuid × Card)) (targets : List (Uuid × ℤ))
      → OwnBases m
      → All (λ (e : Uuid × Card). HasNext e.1) m
      → (cs : List Card) × (build_siblings blake3 now m targets ≡ some cs) × Built m targets cs
  unfolding build_siblings Built
  build_siblings-Built [] targets own h = ([], refl, tt)
  build_siblings-Built ((j, base) ∷ m) targets own h =
      let (cs, e, built) = build_siblings-Built m targets own.1 h.1 in
      let (c, e', mv) = moved-IsMoveOf base (or_own (map_get j targets) base) h.0 in
      (c ∷ cs, ground arith, (mv.next.same_id ∙ own.0, mv, built))

  Built-keys :
      (m : List (Uuid × Card)) (targets : List (Uuid × ℤ)) (cs : List Card)
      → Built m targets cs
      → map card_id cs ≡ keys m
  unfolding Built
  Built-keys [] targets [] b = refl
  Built-keys [] targets (c ∷ cs) b = elim b [ ]
  Built-keys ((j, base) ∷ m) targets [] b = elim b [ ]
  Built-keys ((j, base) ∷ m) targets (c ∷ cs) (e, mv, b) =
      rw (Built-keys m targets cs b) (ap (λ i. i ∷ keys m) e)

  -- A sibling without a snapshot has no version, and another one the move of its snapshot.
  abbrev pub Shifted : Option Card → Option ℤ → Option Card → Type 0
  Shifted none target version = version ≡ none
  Shifted (some base) target version =
      (c : Card) × (version ≡ some c) × IsMoveOf base (or_own target base) c

  Shifted-same :
      (o' v' : Option Card) (t : Option ℤ) {o v : Option Card}
      → o ≡ o'
      → v ≡ v'
      → Shifted o' t v'
      → Shifted o t v
  Shifted-same o' v' t {o} {v} p q s =
      subst (λ x. Shifted x t v) (sym p) (subst (λ y. Shifted o' t y) (sym q) s)

  Built-held :
      (m : List (Uuid × Card)) (targets : List (Uuid × ℤ)) (cs : List Card) (j : Uuid)
      → Built m targets cs
      → Shifted (map_get j m) (map_get j targets) (held card_id j cs)
  unfolding Built map_get
  Built-held [] targets [] j b = refl
  Built-held [] targets (c ∷ cs) j b = elim b [ ]
  Built-held ((k, base) ∷ m) targets [] j b = elim b [ ]
  Built-held ((k, base) ∷ m) targets (c ∷ cs) j (e, mv, b) = elim (Bool-cases (j == k)) [
    | inl same ↦
        Shifted-same (some base) (some c) _ (ground arith)
          (ground (arith, ==_iff c.id j, ==_iff j k))
          (
            c,
            refl,
            subst (λ i. IsMoveOf base (or_own (map_get i targets) base) c)
                (sym ((==_iff j k).0 same)) mv,
          )
    | inr other ↦
        Shifted-same (map_get j m) (held card_id j cs) _ (ground arith)
          (ground (arith, ==_iff c.id j, ==_iff j k)) (Built-held m targets cs j b)
  ]

  build_versions-some :
      (b : PriorityBurst) (primary : Card) (siblings : List Card)
      → moved blake3 now b.base b.priority ≡ some primary
      → build_siblings blake3 now b.sibling_bases b.sibling_priorities ≡ some siblings
      → build_versions blake3 now b ≡ some (primary, siblings)
  unfolding build_versions
  build_versions-some b primary siblings e e' = ground arith

  -- After the moves of a card, a burst is pushed as one version of the card with the last priority,
  -- and one version of each sibling, on its first snapshot with its last target.
  pub build_versions_lem :
      (base : Card) (priority : ℤ) (moves : List (ℤ × List (Card × ℤ)))
      → HasNext base
      → ((j : Uuid) → OfSome HasNext (first_base j (all_siblings moves)))
      → (primary : Card) × (siblings : List Card) × (build_versions blake3 now
            (apply_moves moves (new_burst base priority))
          ≡ some (primary, siblings))
        × IsMoveOf base (final_priority priority moves) primary
        × IsAscending (map card_id siblings)
        × ((j : Uuid)
            → Shifted
                (first_base j (all_siblings moves))
                (last_target j (all_siblings moves))
                (held card_id j siblings))
  unfolding new_burst
  build_versions_lem base priority moves h hs =
      let b = apply_moves moves (new_burst base priority) in
      let (k, p) = apply_moves-Knows moves (new_burst base priority) in
      let ascending : IsAscending (keys b.sibling_bases) = k.ascending tt in
      let bases : (j : Uuid) → map_get j b.sibling_bases ≡ first_base j (all_siblings moves) =
        λ j. unfold map_get in k.bases j in
      let targets : (j : Uuid)
          → map_get j b.sibling_priorities ≡ last_target j (all_siblings moves) =
        λ j. unfold map_get in k.targets j ∙ ground arith in
      let small =
        All-of_map_get HasNext b.sibling_bases ascending
          λ j. subst (OfSome HasNext) (sym (bases j)) (hs j) in
      let (primary, e, mv) = moved-IsMoveOf base (final_priority priority moves) h in
      let (siblings, e', built) =
        build_siblings-Built b.sibling_bases b.sibling_priorities (k.own tt) small in
      (
        primary,
        siblings,
        build_versions-some b primary siblings
            (ap (λ x. moved blake3 now x b.priority) k.base ∙ ap (moved blake3 now base) p ∙ e) e',
        mv,
        subst IsAscending (sym (Built-keys b.sibling_bases b.sibling_priorities siblings built))
            ascending,
        λ j.
            Shifted-same (map_get j b.sibling_bases) (held card_id j siblings) _ (sym (bases j))
              refl
              (subst (λ t. Shifted (map_get j b.sibling_bases) t (held card_id j siblings))
                (targets j) (Built-held b.sibling_bases b.sibling_priorities siblings j built)),
      )
