-- ===== src/Client/Links/Counts/Laws.antt =====
-- The counts of links against their description: a link one way counts for both its ends, and one
-- both ways for each end once.
use blaze_list.Prelude.{
  ℕ, ◌+◌, ◌<◌, ◌≡◌, refl, ◌∙◌, Bool, not, ◌&&◌, List, [], ◌∷◌, length, filter, contains, In, ◌==◌,
  ==_iff, ==_refl, arith, if◌then◌else◌, All,
}
use blaze_list.Prelude.Btree.{map_get, map_get-map_insert, keys, IsAscending}
use blaze_list.Protocol.Types.{Uuid}
use blaze_list.Client.Links.Found.{IsDistinct}
use blaze_list.Client.Links.Counts.{
  LinkCounts, counts_of, bump, targets_of, classify, classify_each, count_links, add_forward,
  add_back, add_mutual,
}

abbrev pub count : (Uuid → Bool) → List Uuid → ℕ
count p xs = length (filter p xs)

pub counts_of-bump :
    (id x : Uuid) (f : LinkCounts → LinkCounts) (counts : List (Uuid × LinkCounts))
    → counts_of (bump id f counts) x
      ≡ (if x == id then f (counts_of counts x) else counts_of counts x)
unfolding bump
counts_of-bump id x f counts =
    ground (arith, map_get-map_insert id x (f (counts_of counts id)) counts, ==_iff x id)

below_not-In : (k : ℕ) (xs : List ℕ) (x : ℕ) → All (λ y. k < y) xs → In x xs → k < x
below_not-In k [] x a m = cc
below_not-In k (y ∷ ys) x a m = ground (arith, below_not-In k ys x a.1, ==_iff x y)

module _ (outgoing : List (Uuid × List Uuid)) where
  -- Does `target` link back to `own`?
  abbrev returns : Uuid → Uuid → Bool
  returns own target = contains (targets_of outgoing target) own

  abbrev one_way : Uuid → Uuid → Bool
  one_way own target = not (returns own target)

  -- The number of links from `own` to `x` that are one-way.
  abbrev into : Uuid → Uuid → List Uuid → ℕ
  into own x links = count (λ t. t == x && one_way own t) links

  classify-adds :
      (own t : Uuid) (counts : List (Uuid × LinkCounts)) (x : Uuid)
      → ((counts_of (classify outgoing own t counts) x).forward
          ≡ (counts_of counts x).forward + (if x == own && one_way own t then 1 else 0))
        × ((counts_of (classify outgoing own t counts) x).back
            ≡ (counts_of counts x).back + (if t == x && one_way own t then 1 else 0))
        × ((counts_of (classify outgoing own t counts) x).mutual_links
            ≡ (counts_of counts x).mutual_links + (if x == own && returns own t then 1 else 0))
        × ((counts_of (classify outgoing own t counts) x).transitive
            ≡ (counts_of counts x).transitive)
  unfolding classify
  classify-adds own t counts x = ground (
    arith,
    counts_of-bump own x add_mutual counts,
    counts_of-bump own x add_forward counts,
    counts_of-bump t x add_back (bump own add_forward counts),
    ==_iff t x,
    ==_iff x t,
  )

  classify_each-adds :
      (own : Uuid) (links : List Uuid) (counts : List (Uuid × LinkCounts)) (x : Uuid)
      → ((counts_of (classify_each outgoing own links counts) x).forward
          ≡ (counts_of counts x).forward + (if x == own then count (one_way own) links else 0))
        × ((counts_of (classify_each outgoing own links counts) x).back
            ≡ (counts_of counts x).back + into own x links)
        × ((counts_of (classify_each outgoing own links counts) x).mutual_links
            ≡ (counts_of counts x).mutual_links
              + (if x == own then count (returns own) links else 0))
        × ((counts_of (classify_each outgoing own links counts) x).transitive
            ≡ (counts_of counts x).transitive)
  unfolding classify_each
  classify_each-adds own [] counts x = ground arith
  classify_each-adds own (t ∷ links) counts x =
      let next = classify outgoing own t counts in
      let (f, b, m, tr) = classify_each-adds own links next x in
      let (f', b', m', tr') = classify-adds own t counts x in
      (f ∙ ground (arith, f'), b ∙ ground (arith, b'), m ∙ ground (arith, m'), tr ∙ tr')

  -- What a list of entries adds to the counts under an identifier.
  abbrev Agrees : List (Uuid × List Uuid) → Type 0
  Agrees es = (u : Uuid) → In u (keys es) → targets_of outgoing u ≡ targets_of es u

  Agrees-tail :
      (own : Uuid) (links : List Uuid) (es : List (Uuid × List Uuid))
      → IsAscending (keys ((own, links) ∷ es))
      → Agrees ((own, links) ∷ es)
      → Agrees es
  unfolding map_get
  Agrees-tail own links es a h u m =
      h u (ground arith) ∙ ground (arith, below_not-In own (keys es) u a.0, ==_iff u own)

  Agrees-head :
      (own : Uuid) (links : List Uuid) (es : List (Uuid × List Uuid))
      → Agrees ((own, links) ∷ es)
      → targets_of outgoing own ≡ links
  unfolding map_get
  Agrees-head own links es h = h own (ground (arith, ==_refl own)) ∙ ground (arith, ==_refl own)

  into-IsDistinct :
      (own x : Uuid) (links : List Uuid)
      → IsDistinct links
      → into own x links ≡ (if contains links x && one_way own x then 1 else 0)
  into-IsDistinct own x [] d = refl
  into-IsDistinct own x (t ∷ links) d =
      ground (arith, into-IsDistinct own x links d.1, ==_iff t x, ==_iff x t)

  pub count_links-adds :
      (es : List (Uuid × List Uuid)) (counts : List (Uuid × LinkCounts)) (x : Uuid)
      → IsAscending (keys es)
      → All (λ (e : Uuid × List Uuid). IsDistinct e.1) es
      → Agrees es
      → ((counts_of (count_links outgoing es counts) x).forward
          ≡ (counts_of counts x).forward
            + (if contains (keys es) x then count (one_way x) (targets_of outgoing x) else 0))
        × ((counts_of (count_links outgoing es counts) x).back
            ≡ (counts_of counts x).back
              + count (λ u. contains (targets_of outgoing u) x && one_way u x) (keys es))
        × ((counts_of (count_links outgoing es counts) x).mutual_links
            ≡ (counts_of counts x).mutual_links
              + (if contains (keys es) x then count (returns x) (targets_of outgoing x) else 0))
        × ((counts_of (count_links outgoing es counts) x).transitive
            ≡ (counts_of counts x).transitive)
  unfolding count_links
  count_links-adds [] counts x a d h = ground arith
  count_links-adds ((own, links) ∷ es) counts x a d h =
      let (f, b, m, tr) =
        count_links-adds es (classify_each outgoing own links counts) x a.1 d.1
          (Agrees-tail own links es a h) in
      let (f', b', m', tr') = classify_each-adds own links counts x in
      let head = Agrees-head own links es h in
      (
        f ∙ ground (arith, f', head, ==_iff x own, below_not-In own (keys es) x a.0),
        b ∙ ground (arith, b', head, into-IsDistinct own x links d.0),
        m ∙ ground (arith, m', head, ==_iff x own, below_not-In own (keys es) x a.0),
        tr ∙ tr',
      )
