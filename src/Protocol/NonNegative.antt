-- ===== src/Protocol/NonNegative.antt =====
-- protocol/src/non_negative_i64: an `i64` that is at least 0, kept as a natural number.
use blaze_list.Prelude.{ℕ, ◌≤◌, leb, if◌then◌else◌}
use blaze_list.Prelude.Int.{ℤ, pos, leb_ℤ, pos_part}
use blaze_list.Prelude.Result.{Result, ok, err}

pub data ConversionError : Type 0 where
  negative_value out_of_range : ConversionError

pub record NonNegativeI64 : Type 0 where
  pub value : ℕ

-- TryFrom<i64>
unfoldable pub try_from_i64 : ℤ → Result ConversionError NonNegativeI64
try_from_i64 v = if leb_ℤ (pos 0) v then ok (record { value = pos_part v }) else err negative_value

-- From<NonNegativeI64> for i64
unfoldable pub to_i64 : NonNegativeI64 → ℤ
to_i64 n = pos n.value

-- From<NonNegativeI64> for u64
unfoldable pub to_u64 : NonNegativeI64 → ℕ
to_u64 n = n.value

-- TryFrom<u64>
unfoldable pub try_from_u64 : ℕ → Result ConversionError NonNegativeI64
try_from_u64 v = if leb v 9223372036854775807 then ok (record { value = v }) else err out_of_range

-- What the type guarantees.
abbrev pub InRange : NonNegativeI64 → Type 0
InRange n = n.value ≤ 9223372036854775807
