-- ===== src/Protocol/Graph/Closure.antt =====
-- `closure_of` ends, and finds exactly the tags that are reached.
use blaze_list.Prelude.{
  ℕ, zero, suc, ◌+◌, ◌≤◌, ◌≡◌, refl, sym, subst, ◌⊎◌, inl, inr, ◌↔◌, true, false, List, [], ◌∷◌,
  reverse, length, contains, In, contains-reverse, Bool-cases, arith, ◌||◌, if◌then◌else◌,
  length-reverse, not, ◌&&◌,
}
use blaze_list.Prelude.Btree.{
  set_insert, contains-set_insert, set_insert-cases, map_get, IsAscending, set_insert-IsAscending,
}
use blaze_list.Protocol.Types.{Uuid}
use blaze_list.Protocol.Graph.{
  TagGraph, implies_of, push_unvisited, closure_loop, edge_count, closure_of, or_empty,
}
use blaze_list.Protocol.Graph.Reach.{Reach, root, step}

contains-push_unvisited :
    (visited ps stack : List Uuid) (x : Uuid)
    → contains (push_unvisited visited ps stack) x
      ≡ (contains stack x || (contains ps x && not (contains visited x)))
unfolding push_unvisited
contains-push_unvisited visited [] stack x = ground arith
contains-push_unvisited visited (p ∷ ps) stack x =
    ground (
      arith,
      contains-push_unvisited visited ps (if contains visited p then stack else p ∷ stack) x,
    )

length-push_unvisited-le :
    (visited ps stack : List Uuid)
    → length (push_unvisited visited ps stack) ≤ length ps + length stack
unfolding push_unvisited
length-push_unvisited-le visited [] stack = omega arith
length-push_unvisited-le visited (p ∷ ps) stack =
    ground
      (arith, length-push_unvisited-le visited ps (if contains visited p then stack else p ∷ stack))

-- The edges out of tags that are not visited yet.
weight : List Uuid → List (Uuid × List Uuid) → ℕ
weight visited [] = 0
weight visited ((k, ps) ∷ es) = (if contains visited k then 0 else length ps) + weight visited es

weight-nil : (es : List (Uuid × List Uuid)) → weight [] es ≡ edge_count es
unfolding weight edge_count
weight-nil [] = refl
weight-nil ((k, ps) ∷ es) = omega (arith, weight-nil es)

weight-set_insert-le :
    (id : Uuid) (visited : List Uuid) (es : List (Uuid × List Uuid))
    → weight (set_insert id visited) es ≤ weight visited es
unfolding weight
weight-set_insert-le id visited [] = omega arith
weight-set_insert-le id visited ((k, ps) ∷ es) =
    ground (arith, weight-set_insert-le id visited es, contains-set_insert id visited k)

weight-enter :
    (id : Uuid) (visited : List Uuid) (es : List (Uuid × List Uuid))
    → contains visited id ≡ false
    → weight (set_insert id visited) es + length (or_empty (map_get id es)) ≤ weight visited es
unfolding weight map_get
weight-enter id visited [] h = omega arith
weight-enter id visited ((k, ps) ∷ es) h = ground (
  arith,
  weight-enter id visited es h,
  weight-set_insert-le id visited es,
  contains-set_insert id visited k,
)

module _ (g : TagGraph) where
  -- The rounds of the loop that are left at most.
  abbrev work : List Uuid → List Uuid → ℕ
  work visited stack = length stack + weight visited g.edges

  module _ (roots : List Uuid) where
    record Inv (visited stack : List Uuid) : Type 0 where
      seen : (x : Uuid) → In x visited → Reach g roots x
      waiting : (x : Uuid) → In x stack → Reach g roots x
      started : (x : Uuid) → In x roots → In x visited ⊎ In x stack
      closed : (u v : Uuid) → In u visited → In v (implies_of g u) → In v visited ⊎ In v stack
      ascending : IsAscending visited

    Inv-skip :
        (id : Uuid) (visited rest : List Uuid)
        → contains visited id ≡ true
        → Inv visited (id ∷ rest)
        → Inv visited rest
    Inv-skip id visited rest old h = record {
      seen = h.seen;
      waiting = λ x m. h.waiting x (ground arith);
      started = λ x m. ground (arith, h.started x m);
      closed = λ u v m e. ground (arith, h.closed u v m e);
      ascending = h.ascending;
    }

    Inv-enter :
        (id : Uuid) (visited rest : List Uuid)
        → Inv visited (id ∷ rest)
        → Inv
            (set_insert id visited)
            (push_unvisited (set_insert id visited) (implies_of g id) rest)
    Inv-enter id visited rest h =
        let visited' = set_insert id visited in
        let here = h.waiting id (ground arith) in
        let new = λ (x : Uuid). contains-set_insert id visited x in
        let pushed = λ (x : Uuid). contains-push_unvisited visited' (implies_of g id) rest x in
        record {
          seen = λ x m. elim (set_insert-cases id visited x m) [
            | inl e ↦ subst (Reach g roots) (sym e) here
            | inr o ↦ h.seen x o
          ];
          waiting = λ x m. elim (Bool-cases (contains rest x)) [
            | inl o ↦ h.waiting x (ground arith)
            | inr n ↦ step here (ground (arith, pushed x))
          ];
          started = λ x m. ground (arith, h.started x m, new x, pushed x);
          closed = λ u v m e.
              ground (arith, h.closed u v, set_insert-cases id visited u m, new v, pushed v);
          ascending = set_insert-IsAscending id visited h.ascending;
        }

    -- With fuel for the work the loop empties the stack and keeps the invariant.
    closure_loop-Inv :
        (fuel : ℕ) (visited stack : List Uuid)
        → Inv visited stack
        → work visited stack ≤ fuel
        → Inv (closure_loop g fuel visited stack).0 []
    unfolding closure_loop
    closure_loop-Inv zero visited [] h w = h
    closure_loop-Inv zero visited (id ∷ rest) h w = absurd (omega arith)
    closure_loop-Inv (suc fuel) visited [] h w = h
    closure_loop-Inv (suc fuel) visited (id ∷ rest) h w = elim (Bool-cases (contains visited id)) [
      | inl old ↦
          rw old (closure_loop-Inv fuel visited rest (Inv-skip id visited rest old h) (omega arith))
      | inr new ↦
          let visited' = set_insert id visited in
          rw new (
            closure_loop-Inv fuel visited' (push_unvisited visited' (implies_of g id) rest)
              (Inv-enter id visited rest h)
              (unfold implies_of in
                omega (
                  arith,
                  length-push_unvisited-le visited' (implies_of g id) rest,
                  weight-enter id visited g.edges new,
                )))
    ]

    Inv-start : Inv [] (reverse roots)
    Inv-start = record {
      seen = λ x m. cc;
      waiting = λ x m. root (rw (← contains-reverse roots x) m);
      started = λ x m. inr (rw (contains-reverse roots x) m);
      closed = λ u v m e. cc;
      ascending = tt;
    }

    closure_of-Inv : Inv (closure_of g roots) []
    unfolding closure_of
    closure_of-Inv =
        closure_loop-Inv _ [] (reverse roots) Inv-start
          (omega (arith, length-reverse roots, weight-nil g.edges))

    Reach-In : {x : Uuid} → Reach g roots x → In x (closure_of g roots)
    Reach-In (root {x} m) = ground (arith, closure_of-Inv.started x m)
    Reach-In (step {u} {v} r e) = ground (arith, closure_of-Inv.closed u v (Reach-In r) e)

    -- The closure of the roots holds exactly the tags that are reached from them along `implies`.
    pub closure_of-iff_Reach : (x : Uuid) → In x (closure_of g roots) ↔ Reach g roots x
    closure_of-iff_Reach x = (closure_of-Inv.seen x, Reach-In)

    pub closure_of-IsAscending : IsAscending (closure_of g roots)
    closure_of-IsAscending = closure_of-Inv.ascending
