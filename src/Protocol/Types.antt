-- ===== src/Protocol/Types.antt =====
-- Values of third-party types that the protocol passes on. A UUID is its 128-bit value and a BLAKE3
-- hash its 256-bit value, both big-endian, so the order of the bytes is the order of the numbers. A
-- time is the count of milliseconds that the wire and the tables keep. Text is its UTF-8 bytes.
use blaze_list.Prelude.{ℕ, List}
use blaze_list.Prelude.Int.{ℤ}

abbrev pub Uuid : Type 0
Uuid = ℕ

abbrev pub Hash : Type 0
Hash = ℕ

abbrev pub DateTime : Type 0
DateTime = ℤ

abbrev pub Text : Type 0
Text = List ℕ

-- rgb::RGB8
pub record Rgb : Type 0 where
  pub r : ℕ
  pub g : ℕ
  pub b : ℕ

-- protocol/src/hash/hash.rs
abbrev pub zero_hash : Hash
zero_hash = 0
