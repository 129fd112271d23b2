-- ===== src/Protocol/Graph/Cycle/Invariant.antt =====
-- The state of the search of `detect_cycle`: what each step of its loop keeps.
use blaze_list.Prelude.{
  ℕ, zero, suc, ◌<◌, ◌≡◌, refl, Bool, true, false, Option, none, some, List, [], ◌∷◌, ◌||◌, map,
  reverse, take, length, get_elem?, arith, In, contains, ◌==◌, ==_iff, All,
}
use blaze_list.Prelude.Btree.{keys, map_get, map_insert, map_get-map_insert}
use blaze_list.Protocol.Types.{Uuid}
use blaze_list.Protocol.Tag.Versions.{contains-sort_ids}
use blaze_list.Protocol.Graph.{TagGraph, implies_of, sorted_implies}
use blaze_list.Protocol.Graph.Cycle.{Color, white, gray, black, Frame, Search, or_white, cycle_at}
use blaze_list.Protocol.Graph.Cycle.Walk.{Chain, Topo, IsCycle, cycle_at-IsCycle}

abbrev pub is_gray : Color → Bool
is_gray gray = true
is_gray white = false
is_gray black = false

abbrev pub is_black : Color → Bool
is_black black = true
is_black gray = false
is_black white = false

abbrev pub colored : Option Color → Bool
colored none = false
colored (some _) = true

contains-take-suc :
    (ps : List Uuid) (i : ℕ) (p y : Uuid)
    → get_elem? ps i ≡ some p
    → contains (take (suc i) ps) y ≡ (contains (take i ps) y || y == p)
contains-take-suc [] i p y h = cc
contains-take-suc (x ∷ ps) zero p y h = ground arith
contains-take-suc (x ∷ ps) (suc i) p y h = ground (arith, contains-take-suc ps i p y h)

contains-take_all :
    (ps : List Uuid) (i : ℕ) (y : Uuid)
    → get_elem? ps i ≡ none
    → contains (take i ps) y ≡ contains ps y
contains-take_all [] zero y h = refl
contains-take_all [] (suc i) y h = refl
contains-take_all (x ∷ ps) zero y h = cc
contains-take_all (x ∷ ps) (suc i) y h = ground (arith, contains-take_all ps i y h)

get_elem?-In : (ps : List Uuid) (i : ℕ) (p : Uuid) → get_elem? ps i ≡ some p → In p ps
get_elem?-In [] i p h = cc
get_elem?-In (x ∷ ps) zero p h = ground arith
get_elem?-In (x ∷ ps) (suc i) p h = ground (arith, get_elem?-In ps i p h)

pub get_elem?-lt : (ps : List Uuid) (i : ℕ) (p : Uuid) → get_elem? ps i ≡ some p → i < length ps
get_elem?-lt [] i p h = cc
get_elem?-lt (x ∷ ps) zero p h = omega arith
get_elem?-lt (x ∷ ps) (suc i) p h = omega (arith, get_elem?-lt ps i p h)

abbrev pub IsNodup : List Uuid → Type 0
IsNodup [] = Unit
IsNodup (x ∷ xs) = (contains xs x ≡ false) × IsNodup xs

module _ (g : TagGraph) where
  contains-sorted_implies :
      (x y : Uuid) → contains (sorted_implies g x) y ≡ contains (implies_of g x) y
  unfolding sorted_implies
  contains-sorted_implies x y = contains-sort_ids (implies_of g x) y

  -- The parents before a frame's index are done, but for the node of the frame above it.
  abbrev pub Looked : List Uuid → List Frame → Type 0
  Looked done [] = Unit
  Looked done (f ∷ []) = Unit
  Looked done (f ∷ f' ∷ fs) =
      ((y : Uuid) → In y (take f'.idx f'.parents) → In y (f.node ∷ done)) × Looked done (f' ∷ fs)

  abbrev pub TopLooked : List Uuid → List Frame → Type 0
  TopLooked done [] = Unit
  TopLooked done (f ∷ fs) = (y : Uuid) → In y (take f.idx f.parents) → In y done

  abbrev pub nodes : List Frame → List Uuid
  nodes = map (λ (f : Frame). f.node)

  -- The path is the list of the stack's nodes.
  abbrev pub state : List (Uuid × Color) → List Frame → Search
  state color stack = record { color = color; stack = stack; path = nodes stack }

  -- The path is a chain of gray tags without repetition, and what is black is done, in an order in
  -- which each tag implies only tags done before it.
  pub record Inv (done : List Uuid) (color : List (Uuid × Color)) (stack : List Frame)
      : Type 0 where
    pub frames : All (λ (f : Frame). f.parents ≡ sorted_implies g f.node) stack
    pub chain : Chain g (nodes stack)
    pub distinct : IsNodup (nodes stack)
    pub grays : (x : Uuid) → is_gray (or_white (map_get x color)) ≡ contains (nodes stack) x
    pub blacks : (x : Uuid) → is_black (or_white (map_get x color)) ≡ contains done x
    pub topo : Topo g done
    pub top : TopLooked done stack
    pub looked : Looked done stack
    pub known : (x : Uuid) → In x (keys g.edges) → colored (map_get x color) ≡ true

  Looked-weaken :
      (d : Uuid) (done : List Uuid) (stack : List Frame)
      → Looked done stack
      → Looked (d ∷ done) stack
  Looked-weaken d done [] h = tt
  Looked-weaken d done (f ∷ []) h = tt
  Looked-weaken d done (f ∷ f' ∷ fs) h =
      (λ y m. ground (arith, h.0 y m), Looked-weaken d done (f' ∷ fs) h.1)

  Looked-leave :
      (done : List Uuid) (f : Frame) (rest : List Frame)
      → Looked done (f ∷ rest)
      → TopLooked (f.node ∷ done) rest × Looked (f.node ∷ done) rest
  Looked-leave done f [] h = (tt, tt)
  Looked-leave done f (f' ∷ fs) h = (h.0, Looked-weaken f.node done (f' ∷ fs) h.1)

  -- The index of the top frame is not looked at.
  Looked-advance :
      (done : List Uuid) (f : Frame) (i : ℕ) (rest : List Frame)
      → Looked done (f ∷ rest)
      → Looked done (record f { idx = i } ∷ rest)
  Looked-advance done f i [] h = tt
  Looked-advance done f i (f' ∷ fs) h = h

  Chain-tail : (x : Uuid) (l : List Uuid) → Chain g (x ∷ l) → Chain g l
  Chain-tail x [] h = tt
  Chain-tail x (y ∷ l) h = h.1

  module _ (done : List Uuid) (color : List (Uuid × Color)) (frame : Frame) (rest : List Frame)
      (h : Inv done color (frame ∷ rest)) where
    -- The top frame leaves: its node is done.
    pub Inv-leave :
        get_elem? frame.parents frame.idx ≡ none
        → Inv (frame.node ∷ done) (map_insert frame.node black color) rest
    Inv-leave e =
        let put = λ (x : Uuid). map_get-map_insert frame.node x black color in
        record {
          frames = h.frames.1;
          chain = Chain-tail frame.node (nodes rest) h.chain;
          distinct = h.distinct.1;
          grays = λ x. ground (arith, put x, h.grays x, h.distinct.0, ==_iff x frame.node);
          blacks = λ x. ground (arith, put x, h.blacks x);
          topo = (
            λ y m. ground (
              arith,
              contains-take_all frame.parents frame.idx y e,
              contains-sorted_implies frame.node y,
              h.frames.0,
              h.top y,
            ),
            ground (arith, h.grays frame.node, h.blacks frame.node),
            h.topo,
          );
          top = (Looked-leave done frame rest h.looked).0;
          looked = (Looked-leave done frame rest h.looked).1;
          known = λ x m. ground (arith, put x, h.known x m);
        }

    module _ (next : Uuid) (e : get_elem? frame.parents frame.idx ≡ some next) where
      looked_at : (y : Uuid) → In y (take (suc frame.idx) frame.parents) → In y (next ∷ done)
      looked_at y m = ground (arith, contains-take-suc frame.parents frame.idx next y e, h.top y)

      edge : In next (implies_of g frame.node)
      edge = ground (
        arith,
        contains-sorted_implies frame.node next,
        h.frames.0,
        get_elem?-In frame.parents frame.idx next e,
      )

      -- A black parent is passed over.
      pub Inv-advance :
          or_white (map_get next color) ≡ black
          → Inv done color (record frame { idx = suc frame.idx } ∷ rest)
      Inv-advance b = record {
        frames = h.frames;
        chain = h.chain;
        distinct = h.distinct;
        grays = h.grays;
        blacks = h.blacks;
        topo = h.topo;
        top = λ y m. ground (arith, looked_at y m, h.blacks next, ==_iff y next);
        looked = Looked-advance done frame (suc frame.idx) rest h.looked;
        known = h.known;
      }

      -- A white parent is entered.
      pub Inv-enter :
          or_white (map_get next color) ≡ white
          → Inv done (map_insert next gray color) (
              record { node = next; idx = 0; parents = sorted_implies g next }
              ∷ record frame { idx = suc frame.idx }
              ∷ rest)
      Inv-enter w =
          let put = λ (x : Uuid). map_get-map_insert next x gray color in
          record {
            frames = (refl, h.frames);
            chain = (edge, h.chain);
            distinct = (ground (arith, h.grays next), h.distinct);
            grays = λ x. ground (arith, put x, h.grays x);
            blacks = λ x. ground (arith, put x, h.blacks x, h.blacks next, ==_iff x next);
            topo = h.topo;
            top = λ y m. absurd (cc);
            looked = (looked_at, Looked-advance done frame (suc frame.idx) rest h.looked);
            known = λ x m. ground (arith, put x, h.known x m);
          }

      -- A gray parent closes a cycle.
      pub Inv-IsCycle :
          or_white (map_get next color) ≡ gray
          → IsCycle g (cycle_at (reverse (nodes (frame ∷ rest))) next)
      Inv-IsCycle c =
          cycle_at-IsCycle g (nodes rest) frame.node next h.chain edge
            (ground (arith, h.grays next))
