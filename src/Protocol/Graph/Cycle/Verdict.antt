-- ===== src/Protocol/Graph/Cycle/Verdict.antt =====
-- `detect_cycle` decides whether the graph has a cycle: its fuel is enough, what it returns is a
-- cycle, and where it returns nothing there is none.
use blaze_list.Prelude.{
  ℕ, ◌<◌, ◌≡◌, refl, sym, subst, ap, ◌∙◌, inl, inr, ◌⊎◌, true, false, Option, none, some, List, [],
  ◌∷◌, ◌++◌, map, length, arith, In, ==_iff, Bool-cases,
}
use blaze_list.Prelude.Btree.{keys, map_get, map_insert, map_get-map_insert}
use blaze_list.Protocol.Types.{Uuid}
use blaze_list.Protocol.Graph.{TagGraph, implies_of, sorted_implies, or_empty}
use blaze_list.Protocol.Graph.Cycle.{
  Color, white, gray, black, Search, or_white, enter, Outcome, finished, cyclic, out_of_fuel,
  descend, search_from, is_white, cycle_fuel, initial_colors, detect_cycle,
}
use blaze_list.Protocol.Graph.Cycle.Walk.{Topo, IsCycle, Walk, Topo-acyclic}
use blaze_list.Protocol.Graph.Cycle.Invariant.{Inv, state, colored}
use blaze_list.Protocol.Graph.Cycle.Descend.{
  unvisited-enter, unvisited-le, frame_work, length-sorted_implies, descend-Ends, Ends,
}

module _ (g : TagGraph) where
  -- A white start is entered with an empty stack.
  Inv-start :
      (done : List Uuid) (color : List (Uuid × Color)) (start : Uuid)
      → Inv g done color []
      → or_white (map_get start color) ≡ white
      → Inv g done
          (map_insert start gray color)
          (record { node = start; idx = 0; parents = sorted_implies g start } ∷ [])
  Inv-start done color start h w =
      let put = λ (x : Uuid). map_get-map_insert start x gray color in
      record {
        frames = (refl, tt);
        chain = tt;
        distinct = (refl, tt);
        grays = λ x. ground (arith, put x, h.grays x);
        blacks = λ x. ground (arith, put x, h.blacks x, h.blacks start, ==_iff x start);
        topo = h.topo;
        top = λ y m. absurd (cc);
        looked = tt;
        known = λ x m. ground (arith, put x, h.known x m);
      }

  -- A key that is not white with nothing on the stack is done.
  done_of_not_white :
      (done : List Uuid) (color : List (Uuid × Color)) (start : Uuid)
      → Inv g done color []
      → In start (keys g.edges)
      → is_white (map_get start color) ≡ false
      → In start done
  done_of_not_white done color start h k w =
      ground (arith, h.grays start, h.blacks start, h.known start k)

  white_of_is_white : (o : Option Color) → is_white o ≡ true → or_white o ≡ white
  white_of_is_white none h = cc
  white_of_is_white (some white) h = refl
  white_of_is_white (some gray) h = cc
  white_of_is_white (some black) h = cc

  start_fuel : (es : List (Uuid × List Uuid)) (x : Uuid) → In x (keys es) → 0 < length es
  start_fuel [] x m = cc
  start_fuel (e ∷ es) x m = omega arith

  Outcome-cases :
      (o : Outcome)
      → ((s : Search) × (o ≡ finished s)) ⊎ (((c : List Uuid) × (o ≡ cyclic c)) ⊎ (o ≡ out_of_fuel))
  Outcome-cases (finished s) = inl (s, refl)
  Outcome-cases (cyclic c) = inr (inl (c, refl))
  Outcome-cases out_of_fuel = inr (inr refl)

  -- The outer loop ends with every key done, or a cycle.
  abbrev Searches : Outcome → Type 0
  Searches (finished s) =
      (done : List Uuid) × Topo g done × ((x : Uuid) → In x (keys g.edges) → In x done)
  Searches (cyclic c) = IsCycle g c
  Searches out_of_fuel = ⊥

  module _ (fuel : ℕ) (start : Uuid) (starts : List Uuid) (s : Search) where
    search_skip :
        is_white (map_get start s.color) ≡ false
        → search_from g fuel (start ∷ starts) s ≡ search_from g fuel starts s
    unfolding search_from
    search_skip w = ground arith

    search_on :
        (s' : Search)
        → is_white (map_get start s.color) ≡ true
        → descend g fuel (enter g start s) ≡ finished s'
        → search_from g fuel (start ∷ starts) s ≡ search_from g fuel starts s'
    unfolding search_from
    search_on s' w e = ground arith

    search_found :
        (c : List Uuid)
        → is_white (map_get start s.color) ≡ true
        → descend g fuel (enter g start s) ≡ cyclic c
        → search_from g fuel (start ∷ starts) s ≡ cyclic c
    unfolding search_from
    search_found c w e = ground arith

  -- The fuel is enough for what hangs below one start.
  descend_start :
      (done : List Uuid) (color : List (Uuid × Color)) (start : Uuid)
      → Inv g done color []
      → In start (keys g.edges)
      → is_white (map_get start color) ≡ true
      → Ends g (start ∷ done) (descend g (cycle_fuel g) (enter g start (state g color [])))
  unfolding enter cycle_fuel frame_work
  descend_start done color start h k w =
      let white_start = white_of_is_white (map_get start color) w in
      descend-Ends g _ done (map_insert start gray color)
        (record { node = start; idx = 0; parents = sorted_implies g start } ∷ [])
        (Inv-start done color start h white_start)
        (omega (
          arith,
          unvisited-enter start color g.edges white_start,
          unvisited-le color g.edges,
          length-sorted_implies g start,
          start_fuel g.edges start k,
        ))

  search_from-Searches :
      (starts done : List Uuid) (color : List (Uuid × Color))
      → ((x : Uuid) → In x starts → In x (keys g.edges))
      → Inv g done color []
      → ((x : Uuid) → In x (keys g.edges) → In x done ⊎ In x starts)
      → Searches (search_from g (cycle_fuel g) starts (state g color []))
  search_from-Searches [] done color k h before =
      unfold search_from in (done, h.topo, λ x m. ground (arith, before x m))
  search_from-Searches (start ∷ starts) done color k h before =
      let s = state g color [] in
      let key = k start (ground arith) in
      let keys' : (x : Uuid) → In x starts → In x (keys g.edges) = λ x m. k x (ground arith) in
      elim (Bool-cases (is_white (map_get start color))) [
        | inl w ↦
            let run = descend_start done color start h key w in
            elim (Outcome-cases (descend g (cycle_fuel g) (enter g start s))) [
              | inl (s', e) ↦
                  let (done', color', same, h', grows) = subst (Ends g (start ∷ done)) e run in
                  let next =
                    search_from-Searches starts done' color' keys' h'
                      λ x m. ground (arith, before x m, grows x) in
                  subst Searches
                    (sym (
                      search_on (cycle_fuel g) start starts s s' w e
                      ∙ ap (search_from g (cycle_fuel g) starts) same))
                    next
              | inr (inl (c, e)) ↦
                  subst Searches (sym (search_found (cycle_fuel g) start starts s c w e))
                    (subst (Ends g (start ∷ done)) e run)
              | inr (inr e) ↦ absurd (subst (Ends g (start ∷ done)) e run)
            ]
        | inr w ↦ subst Searches (sym (search_skip (cycle_fuel g) start starts s w)) (
            search_from-Searches starts done color keys' h λ x m.
              ground
                (arith, before x m, done_of_not_white done color start h key w, ==_iff x start))
      ]

  or_white-initial :
      (es : List (Uuid × List Uuid)) (x : Uuid)
      → or_white (map_get x (map (λ e. (e.0, white)) es)) ≡ white
  unfolding map_get
  or_white-initial [] x = refl
  or_white-initial (e ∷ es) x = ground (arith, or_white-initial es x)

  colored-initial :
      (es : List (Uuid × List Uuid)) (x : Uuid)
      → In x (keys es)
      → colored (map_get x (map (λ e. (e.0, white)) es)) ≡ true
  unfolding map_get
  colored-initial [] x m = cc
  colored-initial (e ∷ es) x m = ground (arith, colored-initial es x)

  Inv-initial : Inv g [] (initial_colors g) []
  unfolding initial_colors
  Inv-initial = record {
    frames = tt;
    chain = tt;
    distinct = tt;
    grays = λ x. rw (or_white-initial g.edges x) refl;
    blacks = λ x. rw (or_white-initial g.edges x) refl;
    topo = tt;
    top = tt;
    looked = tt;
    known = colored-initial g.edges;
  }

  key_of_value :
      (x y : Uuid) (es : List (Uuid × List Uuid)) → In y (or_empty (map_get x es)) → In x (keys es)
  unfolding map_get
  key_of_value x y [] m = cc
  key_of_value x y (e ∷ es) m = ground (arith, key_of_value x y es)

  -- A tag that begins a cycle implies another, so it is a key.
  key_of_Walk :
      (x : Uuid) (between : List Uuid) → Walk g (x ∷ (between ++ x ∷ [])) → In x (keys g.edges)
  unfolding implies_of
  key_of_Walk x [] w = key_of_value x x g.edges w.0
  key_of_Walk x (y ∷ between) w = key_of_value x y g.edges w.0

  no-IsCycle :
      (done : List Uuid)
      → Topo g done
      → ((x : Uuid) → In x (keys g.edges) → In x done)
      → ¬ ((c : List Uuid) × IsCycle g c)
  no-IsCycle done t all (c, y) =
      let w = subst (Walk g) y.closed y.walk in
      Topo-acyclic g done y.start y.between t (all y.start (key_of_Walk y.start y.between w)) w

  abbrev pub Verdict : Option (List Uuid) → Type 0
  Verdict none = ¬ ((c : List Uuid) × IsCycle g c)
  Verdict (some c) = IsCycle g c

  -- What `detect_cycle` returns is a cycle of the graph, and where it returns nothing the graph has
  -- no cycle.
  pub detect_cycle-Verdict : Verdict (detect_cycle g)
  unfolding detect_cycle
  detect_cycle-Verdict = verdict (search_from g (cycle_fuel g) (keys g.edges) _) searched
    where
      searched :
          Searches (search_from g (cycle_fuel g) (keys g.edges) (state g (initial_colors g) []))
      searched =
          search_from-Searches (keys g.edges) [] (initial_colors g) (λ x m. m) Inv-initial
            λ x m. inr m

      verdict :
          (o : Outcome)
          → Searches o
          → Verdict (elim o [ finished s ↦ none | cyclic c ↦ some c | out_of_fuel ↦ none ])
      verdict (finished s) (done, t, all) = no-IsCycle done t all
      verdict (cyclic c) h = h
      verdict out_of_fuel h = elim h [ ]
