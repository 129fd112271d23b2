-- ===== src/Protocol/Graph/Cycle/Walk.antt =====
-- Walks along `implies`, cycles, and what rules them out.
use mathlib.Core.List.{reverse-cons}
use blaze_list.Prelude.{
  ℕ, suc, ◌≡◌, refl, subst, inl, inr, false, some, List, [], ◌∷◌, ◌++◌, reverse, arith, In,
  contains, contains-reverse, Bool-cases, ◌==◌, ==_iff,
}
use blaze_list.Protocol.Types.{Uuid}
use blaze_list.Protocol.Graph.{TagGraph, implies_of}
use blaze_list.Protocol.Graph.Cycle.{cycle_at, position}

position-some : (x : Uuid) (l : List Uuid) → In x l → (i : ℕ) × (position x l ≡ some i)
unfolding position
position-some x [] m = cc
position-some x (y ∷ l) m = elim (Bool-cases (y == x)) [
  | inl b ↦ (0, rw b refl)
  | inr b ↦ let (i, e) = position-some x l (ground arith) in (suc i, ground arith)
]

module _ (g : TagGraph) where
  -- Each tag of the list implies the one after it.
  abbrev pub Walk : List Uuid → Type 0
  Walk [] = Unit
  Walk (x ∷ []) = Unit
  Walk (x ∷ y ∷ l) = In y (implies_of g x) × Walk (y ∷ l)

  -- A walk of at least one step from a tag back to itself.
  pub record IsCycle (c : List Uuid) : Type 0 where
    pub start : Uuid
    pub between : List Uuid
    pub closed : c ≡ start ∷ (between ++ start ∷ [])
    pub walk : Walk c

  -- The same list from its end.
  abbrev pub Chain : List Uuid → Type 0
  Chain [] = Unit
  Chain (x ∷ []) = Unit
  Chain (x ∷ y ∷ l) = In x (implies_of g y) × Chain (y ∷ l)

  Walk-snoc :
      (zs : List Uuid) (y x : Uuid)
      → Walk (zs ++ y ∷ [])
      → In x (implies_of g y)
      → Walk ((zs ++ y ∷ []) ++ x ∷ [])
  Walk-snoc [] y x w e = (e, tt)
  Walk-snoc (z ∷ []) y x w e = (w.0, (e, tt))
  Walk-snoc (z ∷ z' ∷ zs) y x w e = (w.0, Walk-snoc (z' ∷ zs) y x w.1 e)

  Chain-Walk : (xs : List Uuid) → Chain xs → Walk (reverse xs)
  Chain-Walk [] h = tt
  Chain-Walk (x ∷ []) h = tt
  Chain-Walk (x ∷ y ∷ l) h =
      let before = rw reverse-cons at (Chain-Walk (y ∷ l) h.1) in
      rw (reverse-cons, reverse-cons) (Walk-snoc (reverse l) y x before h.0)

  Walk-tail : (x : Uuid) (l : List Uuid) → Walk (x ∷ l) → Walk l
  Walk-tail x [] w = tt
  Walk-tail x (y ∷ l) w = w.1

  -- The slice of a walk from the tag that it would come back to.
  cycle_at-Walk :
      (l : List Uuid) (next : Uuid) → In next l → Walk (l ++ next ∷ []) → IsCycle (cycle_at l next)
  unfolding cycle_at position
  cycle_at-Walk [] next m w = cc
  cycle_at-Walk (x ∷ l) next m w = elim (Bool-cases (x == next)) [
    | inl b ↦ rw b (record { start = next; between = l; closed = ground arith; walk = w })
    | inr b ↦
        let (i, e) = position-some next l (ground arith) in
        let inner = cycle_at-Walk l next (ground arith) (Walk-tail x (l ++ next ∷ []) w) in
        rw (b, e) (rw e at inner)
  ]

  -- A back edge to a tag of the path closes a cycle.
  pub cycle_at-IsCycle :
      (path : List Uuid) (node next : Uuid)
      → Chain (node ∷ path)
      → In next (implies_of g node)
      → In next (node ∷ path)
      → IsCycle (cycle_at (reverse (node ∷ path)) next)
  cycle_at-IsCycle path node next h e m =
      cycle_at-Walk (reverse (node ∷ path)) next (rw (contains-reverse (node ∷ path) next) m)
        (rw reverse-cons at (Chain-Walk (next ∷ node ∷ path) (e, h)))

  -- Tags in an order in which each one implies only later ones.
  abbrev pub Topo : List Uuid → Type 0
  Topo [] = Unit
  Topo (x ∷ l) = ((y : Uuid) → In y (implies_of g x) → In y l) × (contains l x ≡ false) × Topo l

  Topo-step : (l : List Uuid) (u v : Uuid) → Topo l → In u l → In v (implies_of g u) → In v l
  Topo-step [] u v t m e = cc
  Topo-step (x ∷ l) u v t m e = elim (Bool-cases (u == x)) [
    | inl b ↦ ground (arith, t.0 v, subst (λ k. In v (implies_of g k)) ((==_iff u x).0 b) e)
    | inr b ↦ ground (arith, Topo-step l u v t.2 (ground arith) e)
  ]

  Topo-Walk :
      (l : List Uuid) (x : Uuid) (between : List Uuid) (y : Uuid)
      → Topo l
      → In x l
      → Walk (x ∷ (between ++ y ∷ []))
      → In y l
  Topo-Walk l x [] y t m w = Topo-step l x y t m w.0
  Topo-Walk l x (z ∷ between) y t m w = Topo-Walk l z between y t (Topo-step l x z t m w.0) w.1

  -- A walk of at least one step from the first tag ends behind it.
  Topo-behind :
      (x : Uuid) (l between : List Uuid) (y : Uuid)
      → Topo (x ∷ l)
      → Walk (x ∷ (between ++ y ∷ []))
      → In y l
  Topo-behind x l [] y t w = t.0 y w.0
  Topo-behind x l (z ∷ between) y t w = Topo-Walk l z between y t.2 (t.0 z w.0) w.1

  -- So no walk comes back to a tag of the order.
  pub Topo-acyclic :
      (l : List Uuid) (x : Uuid) (between : List Uuid)
      → Topo l
      → In x l
      → ¬ Walk (x ∷ (between ++ x ∷ []))
  Topo-acyclic [] x between t m w = cc
  Topo-acyclic (y ∷ l) x between t m w = elim (Bool-cases (x == y)) [
    | inl b ↦
        let e = (==_iff x y).0 b in
        let behind =
          Topo-behind y l between x t (subst (λ k. Walk (k ∷ (between ++ x ∷ []))) e w) in
        ground arith
    | inr b ↦ Topo-acyclic l x between t.2 (ground arith) w
  ]

-- A cycle is one in every graph that has all its edges.
module _ (g h : TagGraph) (sub : (u v : Uuid) → In v (implies_of g u) → In v (implies_of h u)) where
  Walk-mono : (l : List Uuid) → Walk g l → Walk h l
  Walk-mono [] w = tt
  Walk-mono (x ∷ []) w = tt
  Walk-mono (x ∷ y ∷ l) w = (sub x y w.0, Walk-mono (y ∷ l) w.1)

  pub IsCycle-mono : (c : List Uuid) → IsCycle g c → IsCycle h c
  IsCycle-mono c y = record {
    start = y.start;
    between = y.between;
    closed = y.closed;
    walk = Walk-mono c y.walk;
  }
