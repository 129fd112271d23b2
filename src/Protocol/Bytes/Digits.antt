-- ===== src/Protocol/Bytes/Digits.antt =====
-- Fixed-width fields of the canonical bytes can be read back.
use blaze_list.Prelude.{
  ℕ, zero, suc, ◌/◌, ◌%◌, ◌^◌, ◌<◌, ◌≡◌, refl, ap, List, [], ◌∷◌, ◌++◌, length, length-append,
  append-inj, arith, All, Bool, Option, none, some,
}
use native.Mathlib.Nat.{pow-suc}
use mathlib.Core.List.{append_assoc}
use blaze_list.Prelude.Int.{ℤ, pos, negsuc, InI64}
use blaze_list.Protocol.Types.{Uuid, Rgb}
use blaze_list.Protocol.Bytes.{
  be_bytes, u64_of_i64, i64_bytes, id_list_bytes, bool_bytes, due_date_bytes, color_bytes,
}

pub length-be_bytes : (w n : ℕ) → length (be_bytes w n) ≡ w
unfolding be_bytes
length-be_bytes zero n = refl
length-be_bytes (suc w) n =
    omega (arith, length-append (be_bytes w (n / 256)) (n % 256 ∷ []), length-be_bytes w (n / 256))

pub be_bytes-inj : (w n m : ℕ) → n < 256 ^ w → m < 256 ^ w → be_bytes w n ≡ be_bytes w m → n ≡ m
unfolding be_bytes
be_bytes-inj zero n m hn hm e = omega arith
be_bytes-inj (suc w) n m hn hm e =
    let (p, q) =
      append-inj (be_bytes w (n / 256)) (be_bytes w (m / 256)) (n % 256 ∷ []) (m % 256 ∷ [])
        (omega (arith, length-be_bytes w (n / 256), length-be_bytes w (m / 256))) e in
    let r : n % 256 ≡ m % 256 = cc in
    let below : (k : ℕ) → k < 256 ^ suc w → k / 256 < 256 ^ w =
      λ k h. omega (arith, pow-suc 256 w) in
    omega (arith, be_bytes-inj w (n / 256) (m / 256) (below n hn) (below m hm) p)

-- A field of `w` bytes in front of a rest.
pub be_bytes-field :
    (w n m : ℕ) (r s : List ℕ)
    → n < 256 ^ w
    → m < 256 ^ w
    → be_bytes w n ++ r ≡ be_bytes w m ++ s
    → (n ≡ m) × (r ≡ s)
be_bytes-field w n m r s hn hm e =
    let (p, q) =
      append-inj (be_bytes w n) (be_bytes w m) r s
        (omega (arith, length-be_bytes w n, length-be_bytes w m)) e in
    (be_bytes-inj w n m hn hm p, q)

u64_of_i64-lt : (a : ℤ) → u64_of_i64 a < 256 ^ 8
unfolding u64_of_i64
u64_of_i64-lt (pos n) = omega arith
u64_of_i64-lt (negsuc n) = omega arith

-- Two's complement is one to one on the range of an `i64`.
u64_of_i64-inj : (a b : ℤ) → InI64 a → InI64 b → u64_of_i64 a ≡ u64_of_i64 b → a ≡ b
unfolding u64_of_i64
u64_of_i64-inj (pos n) (pos m) ha hb e = ap pos (omega arith)
u64_of_i64-inj (pos n) (negsuc m) ha hb e = absurd (omega arith)
u64_of_i64-inj (negsuc n) (pos m) ha hb e = absurd (omega arith)
u64_of_i64-inj (negsuc n) (negsuc m) ha hb e = ap negsuc (omega arith)

pub i64_bytes-field :
    (a b : ℤ) (r s : List ℕ)
    → InI64 a
    → InI64 b
    → i64_bytes a ++ r ≡ i64_bytes b ++ s
    → (a ≡ b) × (r ≡ s)
unfolding i64_bytes
i64_bytes-field a b r s ha hb e =
    let (p, q) =
      be_bytes-field 8 (u64_of_i64 a) (u64_of_i64 b) r s (u64_of_i64-lt a) (u64_of_i64-lt b) e in
    (u64_of_i64-inj a b ha hb p, q)

-- A list of identifiers of known length.
pub id_list_bytes-field :
    (ts us : List Uuid) (r s : List ℕ)
    → All (λ t. t < 2 ^ 128) ts
    → All (λ t. t < 2 ^ 128) us
    → length ts ≡ length us
    → id_list_bytes ts ++ r ≡ id_list_bytes us ++ s
    → (ts ≡ us) × (r ≡ s)
unfolding id_list_bytes
id_list_bytes-field [] [] r s ht hu n e = (refl, e)
id_list_bytes-field [] (u ∷ us) r s ht hu n e = absurd (omega arith)
id_list_bytes-field (t ∷ ts) [] r s ht hu n e = absurd (omega arith)
id_list_bytes-field (t ∷ ts) (u ∷ us) r s ht hu n e =
    let (p, q) =
      be_bytes-field 16 t u (id_list_bytes ts ++ r) (id_list_bytes us ++ s) ht.0 hu.0
        (simp append_assoc at e) in
    let (p', q') = id_list_bytes-field ts us r s ht.1 hu.1 (omega arith) q in (cc, q')

pub bool_bytes-field :
    (a b : Bool) (r s : List ℕ) → bool_bytes a ++ r ≡ bool_bytes b ++ s → (a ≡ b) × (r ≡ s)
unfolding bool_bytes
bool_bytes-field a b r s e = ground arith

abbrev pub IsDue : Option ℤ → Type 0
IsDue none = Unit
IsDue (some ms) = InI64 ms

pub due_date_bytes-field :
    (a b : Option ℤ) (r s : List ℕ)
    → IsDue a
    → IsDue b
    → due_date_bytes a ++ r ≡ due_date_bytes b ++ s
    → (a ≡ b) × (r ≡ s)
unfolding due_date_bytes
due_date_bytes-field none none r s ha hb e = (refl, cc)
due_date_bytes-field none (some y) r s ha hb e = absurd (ground arith)
due_date_bytes-field (some x) none r s ha hb e = absurd (ground arith)
due_date_bytes-field (some x) (some y) r s ha hb e =
    let (p, q) = i64_bytes-field x y r s ha hb (cc) in (ap some p, q)

pub color_bytes-field :
    (a b : Option Rgb) (r s : List ℕ) → color_bytes a ++ r ≡ color_bytes b ++ s → (a ≡ b) × (r ≡ s)
unfolding color_bytes
color_bytes-field none none r s e = (refl, cc)
color_bytes-field none (some y) r s e = absurd (ground arith)
color_bytes-field (some x) none r s e = absurd (ground arith)
color_bytes-field (some x) (some y) r s e = ground arith

-- Text with its length in front.
pub text_bytes-field :
    (a b r s : List ℕ)
    → length a < 2 ^ 64
    → length b < 2 ^ 64
    → be_bytes 8 (length a) ++ (a ++ r) ≡ be_bytes 8 (length b) ++ (b ++ s)
    → (a ≡ b) × (r ≡ s)
text_bytes-field a b r s ha hb e =
    let (n, q) = be_bytes-field 8 (length a) (length b) (a ++ r) (b ++ s) ha hb e in
    append-inj a b r s n q

-- The identifiers with their number in front.
pub counted_ids-field :
    (ts us : List Uuid) (r s : List ℕ)
    → All (λ t. t < 2 ^ 128) ts
    → All (λ t. t < 2 ^ 128) us
    → length ts < 2 ^ 64
    → length us < 2 ^ 64
    → be_bytes 8 (length ts) ++ (id_list_bytes ts ++ r)
      ≡ be_bytes 8 (length us) ++ (id_list_bytes us ++ s)
    → (ts ≡ us) × (r ≡ s)
counted_ids-field ts us r s ht hu lt lu e =
    let (n, q) =
      be_bytes-field 8 (length ts) (length us) (id_list_bytes ts ++ r) (id_list_bytes us ++ s) lt lu
        e in
    id_list_bytes-field ts us r s ht hu n q
