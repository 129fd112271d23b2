-- ===== src/Protocol/Version.antt =====
-- protocol/src/version/version.rs: compatibility of protocol versions, and the parser of the macro
-- `pkg_version`.
use blaze_list.Prelude.{
  ℕ, ◌+◌, ◌-◌, ◌*◌, ◌^◌, Bool, Option, none, some, List, [], ◌∷◌, ◌==◌, leb, ◌&&◌, if◌then◌else◌,
}

-- semver::Version
pub record Version : Type 0 where
  pub major : ℕ
  pub minor : ℕ
  pub patch : ℕ

-- `parse_u64`: `none` is the failed assertion of a byte that is no digit. The arithmetic is checked
-- at compile time, where an overflow is an error too.
unfoldable pub parse_from : ℕ → List ℕ → Option ℕ
parse_from result [] = some result
parse_from result (digit ∷ bytes) =
    let next = result * 10 + (digit - b'0') in
    let rest = parse_from next bytes in
    if leb b'0' digit && leb digit b'9' then (if leb (2 ^ 64) next then none else rest) else none

unfoldable pub parse_u64 : List ℕ → Option ℕ
parse_u64 bytes = parse_from 0 bytes

unfoldable pub is_compatible : Version → Version → Bool
is_compatible a b = a.major == b.major
