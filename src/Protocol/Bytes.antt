-- ===== src/Protocol/Bytes.antt =====
-- The canonical byte strings of protocol/src/hash/hash.rs, which BLAKE3 is applied to.
pub mod Digits
pub mod Unique
use blaze_list.Prelude.{
  ℕ, zero, suc, ◌+◌, ◌-◌, ◌*◌, ◌/◌, ◌%◌, ◌^◌, Bool, true, false, Option, none, some, List, [], ◌∷◌,
  ◌++◌, length, leb, if◌then◌else◌,
}
use blaze_list.Prelude.Int.{ℤ, pos, negsuc}
use blaze_list.Prelude.Sort.{sort_by}
use blaze_list.Protocol.Types.{Uuid, Hash, Text, Rgb}

-- The last `w` bytes of a number, big-endian: `u64::to_be_bytes` at 8, `Uuid::as_bytes` at 16,
-- `Hash::as_bytes` at 32.
unfoldable pub be_bytes : ℕ → ℕ → List ℕ
be_bytes zero n = []
be_bytes (suc w) n = be_bytes w (n / 256) ++ n % 256 ∷ []

-- The bit pattern of an `i64`.
unfoldable pub u64_of_i64 : ℤ → ℕ
u64_of_i64 (pos n) = n % 2 ^ 64
u64_of_i64 (negsuc n) = 2 ^ 64 - 1 - n % 2 ^ 64

-- `i64::to_be_bytes`
unfoldable pub i64_bytes : ℤ → List ℕ
i64_bytes a = be_bytes 8 (u64_of_i64 a)

-- `sort` on a list of UUIDs.
unfoldable pub sort_ids : List Uuid → List Uuid
sort_ids = sort_by leb

-- The loop that writes one UUID after the other.
unfoldable pub id_list_bytes : List Uuid → List ℕ
id_list_bytes [] = []
id_list_bytes (t ∷ ts) = be_bytes 16 t ++ id_list_bytes ts

unfoldable pub bool_bytes : Bool → List ℕ
bool_bytes b = (if b then 1 else 0) ∷ []

unfoldable pub due_date_bytes : Option ℤ → List ℕ
due_date_bytes none = 0 ∷ []
due_date_bytes (some ms) = 1 ∷ i64_bytes ms

unfoldable pub color_bytes : Option Rgb → List ℕ
color_bytes none = 0 ∷ []
color_bytes (some c) = 1 ∷ c.r ∷ c.g ∷ c.b ∷ []

-- What `canonical_card_hash` feeds to the hasher.
unfoldable pub canonical_card_bytes :
    Uuid → Text → ℤ → List Uuid → Bool → ℤ → ℤ → ℤ → Hash → Option ℤ → List ℕ
canonical_card_bytes id content priority tags blazed created_at_ms modified_at_ms count
      ancestor_hash due_date_ms =
    let sorted_tags = sort_ids tags in
    be_bytes 16 id
    ++ (be_bytes 8 (length content)
        ++ (content
            ++ (i64_bytes priority
                ++ (be_bytes 8 (length sorted_tags)
                    ++ (id_list_bytes sorted_tags
                        ++ (bool_bytes blazed
                            ++ (i64_bytes created_at_ms
                                ++ (i64_bytes modified_at_ms
                                    ++ (due_date_bytes due_date_ms
                                        ++ (i64_bytes count ++ be_bytes 32 ancestor_hash))))))))))

-- The block that a tag without implications does not have.
unfoldable pub implies_bytes : List Uuid → List ℕ
implies_bytes [] = []
implies_bytes (t ∷ ts) =
    let sorted = sort_ids (t ∷ ts) in be_bytes 8 (length sorted) ++ id_list_bytes sorted

-- What `canonical_tag_hash` feeds to the hasher.
unfoldable pub canonical_tag_bytes :
    Uuid → Text → ℤ → ℤ → ℤ → Hash → Option Rgb → List Uuid → List ℕ
canonical_tag_bytes id title created_at_ms modified_at_ms count ancestor_hash color implies =
    be_bytes 16 id
    ++ (be_bytes 8 (length title)
        ++ (title
            ++ (i64_bytes created_at_ms
                ++ (i64_bytes modified_at_ms
                    ++ (color_bytes color
                        ++ (i64_bytes count
                            ++ (be_bytes 32 ancestor_hash ++ implies_bytes implies)))))))

-- BLAKE3 is a parameter: a function from byte strings to hashes.
module _ (blake3 : List ℕ → Hash) where
  unfoldable pub canonical_card_hash :
      Uuid → Text → ℤ → List Uuid → Bool → ℤ → ℤ → ℤ → Hash → Option ℤ → Hash
  canonical_card_hash id content priority tags blazed created_at_ms modified_at_ms count
        ancestor_hash due_date_ms =
      blake3 (
        canonical_card_bytes id content priority tags blazed created_at_ms modified_at_ms count
          ancestor_hash due_date_ms)

  unfoldable pub canonical_tag_hash : Uuid → Text → ℤ → ℤ → ℤ → Hash → Option Rgb → List Uuid → Hash
  canonical_tag_hash id title created_at_ms modified_at_ms count ancestor_hash color implies =
      blake3 (
        canonical_tag_bytes id title created_at_ms modified_at_ms count ancestor_hash color implies)
