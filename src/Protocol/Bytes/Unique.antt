-- ===== src/Protocol/Bytes/Unique.antt =====
-- The canonical bytes determine the fields, tags and implications up to order.
use blaze_list.Prelude.{
  ℕ, ◌^◌, ◌<◌, ◌≡◌, refl, ap, List, [], ◌∷◌, ◌++◌, length, All, Bool, Option, arith, leb,
  length-append,
}
use mathlib.Core.List.{append-nil}
use blaze_list.Prelude.Int.{ℤ, InI64}
use blaze_list.Prelude.Sort.{All-sort_by, length-sort_by}
use blaze_list.Protocol.Types.{Uuid, Hash, Text, Rgb}
use blaze_list.Protocol.Bytes.{
  be_bytes, sort_ids, id_list_bytes, implies_bytes, canonical_card_bytes, canonical_tag_bytes,
}
use blaze_list.Protocol.Bytes.Digits.{
  be_bytes-field, i64_bytes-field, bool_bytes-field, due_date_bytes-field, color_bytes-field,
  text_bytes-field, counted_ids-field, IsDue, be_bytes-inj, length-be_bytes,
}

-- The sorted identifiers with their number in front.
sorted_ids-field :
    (ts us : List Uuid) (r s : List ℕ)
    → All (λ t. t < 2 ^ 128) ts
    → All (λ t. t < 2 ^ 128) us
    → length ts < 2 ^ 64
    → length us < 2 ^ 64
    → be_bytes 8 (length (sort_ids ts)) ++ (id_list_bytes (sort_ids ts) ++ r)
      ≡ be_bytes 8 (length (sort_ids us)) ++ (id_list_bytes (sort_ids us) ++ s)
    → (sort_ids ts ≡ sort_ids us) × (r ≡ s)
unfolding sort_ids
sorted_ids-field ts us r s ht hu lt lu e =
    counted_ids-field (sort_ids ts) (sort_ids us) r s (All-sort_by leb _ ts ht)
      (All-sort_by leb _ us hu) (omega (arith, length-sort_by leb ts))
      (omega (arith, length-sort_by leb us)) e

-- The arguments of `canonical_card_hash`, in the ranges of their types.
pub record CardFields : Type 0 where
  pub id : Uuid
  pub content : Text
  pub priority : ℤ
  pub tags : List Uuid
  pub blazed : Bool
  pub created_at : ℤ
  pub modified_at : ℤ
  pub count : ℤ
  pub ancestor_hash : Hash
  pub due_date : Option ℤ

abbrev pub card_bytes : CardFields → List ℕ
card_bytes c =
    canonical_card_bytes c.id c.content c.priority c.tags c.blazed c.created_at c.modified_at
      c.count c.ancestor_hash c.due_date

pub record IsCardFields (c : CardFields) : Type 0 where
  pub id_range : c.id < 2 ^ 128
  pub content_range : length c.content < 2 ^ 64
  pub priority_range : InI64 c.priority
  pub tag_range : All (λ t. t < 2 ^ 128) c.tags
  pub tags_range : length c.tags < 2 ^ 64
  pub created_range : InI64 c.created_at
  pub modified_range : InI64 c.modified_at
  pub count_range : InI64 c.count
  pub ancestor_range : c.ancestor_hash < 2 ^ 256
  pub due_range : IsDue c.due_date

-- Equal fields, the tags compared as the sorted list that is hashed.
pub record SameCard (c d : CardFields) : Type 0 where
  pub same_id : c.id ≡ d.id
  pub same_content : c.content ≡ d.content
  pub same_priority : c.priority ≡ d.priority
  pub same_tags : sort_ids c.tags ≡ sort_ids d.tags
  pub same_blazed : c.blazed ≡ d.blazed
  pub same_created : c.created_at ≡ d.created_at
  pub same_modified : c.modified_at ≡ d.modified_at
  pub same_count : c.count ≡ d.count
  pub same_ancestor : c.ancestor_hash ≡ d.ancestor_hash
  pub same_due : c.due_date ≡ d.due_date

-- Two cards with the same canonical bytes, their fields in the ranges of their Rust types, agree in
-- every field, the tags up to order.
pub card_bytes-inj :
    (c d : CardFields)
    → IsCardFields c
    → IsCardFields d
    → card_bytes c ≡ card_bytes d
    → SameCard c d
unfolding canonical_card_bytes
card_bytes-inj c d hc hd e =
    let (p1, e1) = be_bytes-field 16 c.id d.id _ _ hc.id_range hd.id_range e in
    let (p2, e2) = text_bytes-field c.content d.content _ _ hc.content_range hd.content_range e1 in
    let (p3, e3) =
      i64_bytes-field c.priority d.priority _ _ hc.priority_range hd.priority_range e2 in
    let (p4, e4) =
      sorted_ids-field c.tags d.tags _ _ hc.tag_range hd.tag_range hc.tags_range hd.tags_range e3 in
    let (p5, e5) = bool_bytes-field c.blazed d.blazed _ _ e4 in
    let (p6, e6) =
      i64_bytes-field c.created_at d.created_at _ _ hc.created_range hd.created_range e5 in
    let (p7, e7) =
      i64_bytes-field c.modified_at d.modified_at _ _ hc.modified_range hd.modified_range e6 in
    let (p8, e8) = due_date_bytes-field c.due_date d.due_date _ _ hc.due_range hd.due_range e7 in
    let (p9, e9) = i64_bytes-field c.count d.count _ _ hc.count_range hd.count_range e8 in
    record {
      same_id = p1;
      same_content = p2;
      same_priority = p3;
      same_tags = p4;
      same_blazed = p5;
      same_created = p6;
      same_modified = p7;
      same_count = p9;
      same_ancestor =
          be_bytes-inj 32 c.ancestor_hash d.ancestor_hash hc.ancestor_range hd.ancestor_range e9;
      same_due = p8;
    }

-- The arguments of `canonical_tag_hash`.
pub record TagFields : Type 0 where
  pub id : Uuid
  pub title : Text
  pub created_at : ℤ
  pub modified_at : ℤ
  pub count : ℤ
  pub ancestor_hash : Hash
  pub color : Option Rgb
  pub implies : List Uuid

abbrev pub tag_bytes : TagFields → List ℕ
tag_bytes t =
    canonical_tag_bytes t.id t.title t.created_at t.modified_at t.count t.ancestor_hash t.color
      t.implies

pub record IsTagFields (t : TagFields) : Type 0 where
  pub id_range : t.id < 2 ^ 128
  pub title_range : length t.title < 2 ^ 64
  pub created_range : InI64 t.created_at
  pub modified_range : InI64 t.modified_at
  pub count_range : InI64 t.count
  pub ancestor_range : t.ancestor_hash < 2 ^ 256
  pub imply_range : All (λ i. i < 2 ^ 128) t.implies
  pub implies_range : length t.implies < 2 ^ 64

-- Equal fields, the implications compared as the sorted list that is hashed.
pub record SameTag (t u : TagFields) : Type 0 where
  pub same_id : t.id ≡ u.id
  pub same_title : t.title ≡ u.title
  pub same_created : t.created_at ≡ u.created_at
  pub same_modified : t.modified_at ≡ u.modified_at
  pub same_count : t.count ≡ u.count
  pub same_ancestor : t.ancestor_hash ≡ u.ancestor_hash
  pub same_color : t.color ≡ u.color
  pub same_implies : sort_ids t.implies ≡ sort_ids u.implies

implies_bytes-inj :
    (ts us : List Uuid)
    → All (λ t. t < 2 ^ 128) ts
    → All (λ t. t < 2 ^ 128) us
    → length ts < 2 ^ 64
    → length us < 2 ^ 64
    → implies_bytes ts ≡ implies_bytes us
    → sort_ids ts ≡ sort_ids us
unfolding implies_bytes
implies_bytes-inj [] [] ht hu lt lu e = refl
implies_bytes-inj [] (u ∷ us) ht hu lt lu e = absurd (
    omega (
      arith,
      ap length e,
      length-append (be_bytes 8 (length (sort_ids (u ∷ us)))) (id_list_bytes (sort_ids (u ∷ us))),
      length-be_bytes 8 (length (sort_ids (u ∷ us))),
    ))
implies_bytes-inj (t ∷ ts) [] ht hu lt lu e = absurd (
    omega (
      arith,
      ap length e,
      length-append (be_bytes 8 (length (sort_ids (t ∷ ts)))) (id_list_bytes (sort_ids (t ∷ ts))),
      length-be_bytes 8 (length (sort_ids (t ∷ ts))),
    ))
implies_bytes-inj (t ∷ ts) (u ∷ us) ht hu lt lu e =
    (sorted_ids-field (t ∷ ts) (u ∷ us) [] [] ht hu lt lu (simp append-nil e)).0

-- Two tags with the same canonical bytes, their fields in the ranges of their Rust types, agree in
-- every field, the implications up to order; so the block that is written only for a non-empty list
-- makes no two tags alike.
pub tag_bytes-inj :
    (t u : TagFields) → IsTagFields t → IsTagFields u → tag_bytes t ≡ tag_bytes u → SameTag t u
unfolding canonical_tag_bytes
tag_bytes-inj t u ht hu e =
    let (p1, e1) = be_bytes-field 16 t.id u.id _ _ ht.id_range hu.id_range e in
    let (p2, e2) = text_bytes-field t.title u.title _ _ ht.title_range hu.title_range e1 in
    let (p3, e3) =
      i64_bytes-field t.created_at u.created_at _ _ ht.created_range hu.created_range e2 in
    let (p4, e4) =
      i64_bytes-field t.modified_at u.modified_at _ _ ht.modified_range hu.modified_range e3 in
    let (p5, e5) = color_bytes-field t.color u.color _ _ e4 in
    let (p6, e6) = i64_bytes-field t.count u.count _ _ ht.count_range hu.count_range e5 in
    let (p7, e7) =
      be_bytes-field 32 t.ancestor_hash u.ancestor_hash _ _ ht.ancestor_range hu.ancestor_range
        e6 in
    record {
      same_id = p1;
      same_title = p2;
      same_created = p3;
      same_modified = p4;
      same_count = p6;
      same_ancestor = p7;
      same_color = p5;
      same_implies =
          implies_bytes-inj t.implies u.implies ht.imply_range hu.imply_range ht.implies_range
            hu.implies_range e7;
    }
