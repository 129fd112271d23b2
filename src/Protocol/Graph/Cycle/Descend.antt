-- ===== src/Protocol/Graph/Cycle/Descend.antt =====
-- The inner loop of `detect_cycle` ends on the fuel that it is given, with an empty stack or a cycle.
use blaze_list.Prelude.{
  ℕ, zero, suc, ◌≤◌, ◌-◌, ◌*◌, ◌+◌, ◌≡◌, refl, sym, subst, inl, inr, reverse, contains-append, ◌⊎◌,
  Bool, true, false, none, some, List, [], ◌∷◌, ◌++◌, length, get_elem?, arith, In, ==_iff,
  Option-cases, if◌then◌else◌,
}
use blaze_list.Prelude.Btree.{map_get, map_insert, map_get-map_insert}
use blaze_list.Prelude.Sort.{length-sort_by}
use blaze_list.Protocol.Types.{Uuid}
use blaze_list.Protocol.Bytes.{sort_ids}
use blaze_list.Protocol.Graph.{TagGraph, implies_of, sorted_implies, edge_count, or_empty}
use blaze_list.Protocol.Graph.Cycle.{
  Color, white, gray, black, Frame, or_white, enter, leave, advance, visit, cycle_at, Outcome,
  finished, cyclic, out_of_fuel, descend,
}
use blaze_list.Protocol.Graph.Cycle.Walk.{IsCycle}
use blaze_list.Protocol.Graph.Cycle.Invariant.{
  Inv, nodes, state, Inv-leave, Inv-advance, Inv-enter, Inv-IsCycle, get_elem?-lt,
}

-- What is left to look at below the tags that were entered.
abbrev is_white_color : Color → Bool
is_white_color white = true
is_white_color gray = false
is_white_color black = false

pub unvisited : List (Uuid × Color) → List (Uuid × List Uuid) → ℕ
unvisited color [] = 0
unvisited color ((k, ps) ∷ es) =
    (if is_white_color (or_white (map_get k color)) then length ps else 0) + unvisited color es

unvisited-insert-le :
    (id : Uuid) (c : Color) (color : List (Uuid × Color)) (es : List (Uuid × List Uuid))
    → is_white_color c ≡ false
    → unvisited (map_insert id c color) es ≤ unvisited color es
unfolding unvisited
unvisited-insert-le id c color [] h = omega arith
unvisited-insert-le id c color ((k, ps) ∷ es) h =
    ground (arith, unvisited-insert-le id c color es h, map_get-map_insert id k c color)

pub unvisited-enter :
    (id : Uuid) (color : List (Uuid × Color)) (es : List (Uuid × List Uuid))
    → or_white (map_get id color) ≡ white
    → unvisited (map_insert id gray color) es + length (or_empty (map_get id es))
      ≤ unvisited color es
unfolding unvisited map_get
unvisited-enter id color [] h = omega arith
unvisited-enter id color ((k, ps) ∷ es) h = ground (
  arith,
  unvisited-enter id color es h,
  unvisited-insert-le id gray color es refl,
  map_get-map_insert id k gray color,
  ==_iff id k,
)

pub unvisited-le :
    (color : List (Uuid × Color)) (es : List (Uuid × List Uuid))
    → unvisited color es ≤ edge_count es
unfolding unvisited edge_count
unvisited-le color [] = omega arith
unvisited-le color ((k, ps) ∷ es) = ground (arith, unvisited-le color es)

-- The rounds for the frames of the stack.
unfoldable pub frame_work : List Frame → ℕ
frame_work [] = 0
frame_work (f ∷ fs) = suc (2 * (length f.parents - f.idx)) + frame_work fs

module _ (g : TagGraph) where
  abbrev pub work : List (Uuid × Color) → List Frame → ℕ
  work color stack = frame_work stack + 2 * unvisited color g.edges

  pub length-sorted_implies :
      (id : Uuid) → length (sorted_implies g id) ≡ length (or_empty (map_get id g.edges))
  unfolding sorted_implies sort_ids implies_of
  length-sorted_implies id = length-sort_by _ (or_empty (map_get id g.edges))

  -- What a run of the inner loop ends with: an empty stack and all that it must have done, or a
  -- cycle.
  abbrev pub Ends : List Uuid → Outcome → Type 0
  Ends must (finished s) =
      (done : List Uuid) × (color : List (Uuid × Color)) × (s ≡ state g color [])
      × Inv g done color []
      × ((x : Uuid) → In x must → In x done)
  Ends must (cyclic c) = IsCycle g c
  Ends must out_of_fuel = ⊥

  Ends-weaken :
      (must must' : List Uuid) (o : Outcome)
      → ((x : Uuid) → In x must → In x must')
      → Ends must' o
      → Ends must o
  Ends-weaken must must' (finished s) sub (done, color, e, h, all) =
      (done, color, e, h, λ x m. all x (sub x m))
  Ends-weaken must must' (cyclic c) sub h = h
  Ends-weaken must must' out_of_fuel sub h = h

  Color-cases : (c : Color) → (c ≡ white) ⊎ ((c ≡ gray) ⊎ (c ≡ black))
  Color-cases white = inl refl
  Color-cases gray = inr (inl refl)
  Color-cases black = inr (inr refl)

  module _ (fuel : ℕ) (color : List (Uuid × Color)) (f : Frame) (rest : List Frame) where
    descend_leave :
        get_elem? f.parents f.idx ≡ none
        → descend g (suc fuel) (state g color (f ∷ rest))
          ≡ descend g fuel (state g (map_insert f.node black color) rest)
    unfolding descend visit leave
    descend_leave e = ground arith

    module _ (next : Uuid) (e : get_elem? f.parents f.idx ≡ some next) where
      descend_enter :
          or_white (map_get next color) ≡ white
          → descend g (suc fuel) (state g color (f ∷ rest))
            ≡ descend g fuel (
                state g (map_insert next gray color) (
                  record { node = next; idx = 0; parents = sorted_implies g next }
                  ∷ record f { idx = suc f.idx }
                  ∷ rest))
      unfolding descend visit enter advance
      descend_enter c = ground arith

      descend_advance :
          or_white (map_get next color) ≡ black
          → descend g (suc fuel) (state g color (f ∷ rest))
            ≡ descend g fuel (state g color (record f { idx = suc f.idx } ∷ rest))
      unfolding descend visit advance
      descend_advance c = ground arith

      descend_cycle :
          or_white (map_get next color) ≡ gray
          → descend g (suc fuel) (state g color (f ∷ rest))
            ≡ cyclic (cycle_at (reverse (nodes g (f ∷ rest))) next)
      unfolding descend visit
      descend_cycle c = ground arith

  pub descend-Ends :
      (fuel : ℕ) (done : List Uuid) (color : List (Uuid × Color)) (stack : List Frame)
      → Inv g done color stack
      → work color stack ≤ fuel
      → Ends (nodes g stack ++ done) (descend g fuel (state g color stack))
  unfolding descend frame_work
  descend-Ends zero done color [] h w = (done, color, refl, h, λ x m. m)
  descend-Ends zero done color (f ∷ rest) h w = absurd (omega arith)
  descend-Ends (suc fuel) done color [] h w = (done, color, refl, h, λ x m. m)
  descend-Ends (suc fuel) done color (f ∷ rest) h w =
      let must = nodes g (f ∷ rest) ++ done in
      let split = λ (x : Uuid). contains-append (nodes g (f ∷ rest)) done x in
      elim (Option-cases (get_elem? f.parents f.idx)) [
        | inl e ↦ subst (Ends must) (sym (descend_leave fuel color f rest e)) (
            Ends-weaken must (nodes g rest ++ f.node ∷ done) _
              (λ x m. ground (arith, split x, contains-append (nodes g rest) (f.node ∷ done) x))
              (descend-Ends fuel (f.node ∷ done) (map_insert f.node black color) rest
                (Inv-leave g done color f rest h e)
                (omega (arith, unvisited-insert-le f.node black color g.edges refl))))
        | inr (next, e) ↦
            let looking = get_elem?-lt f.parents f.idx next e in
            let advanced : Frame = record f { idx = suc f.idx } in
            elim (Color-cases (or_white (map_get next color))) [
              | inl c ↦
                  let new : Frame = record {
                    node = next;
                    idx = 0;
                    parents = sorted_implies g next;
                  } in
                  subst (Ends must) (sym (descend_enter fuel color f rest next e c)) (
                    Ends-weaken must (next ∷ must) _ (λ x m. ground arith)
                      (descend-Ends fuel done (map_insert next gray color) (new ∷ advanced ∷ rest)
                        (Inv-enter g done color f rest h next e c)
                        (omega (
                          arith,
                          unvisited-enter next color g.edges c,
                          length-sorted_implies next,
                        ))))
              | inr (inl c) ↦
                  subst (Ends must) (sym (descend_cycle fuel color f rest next e c))
                    (Inv-IsCycle g done color f rest h next e c)
              | inr (inr c) ↦ subst (Ends must) (sym (descend_advance fuel color f rest next e c)) (
                  descend-Ends fuel done color (advanced ∷ rest)
                    (Inv-advance g done color f rest h next e c) (omega arith))
            ]
      ]
