-- ===== src/Base/Bytes.antt =====
-- Little-endian bytes, UTF-8 validity and the parsing of integers, as Rust's standard library does
-- them.
use pact_protobuf_plugin.Base.Tests.{◌==◌, ltb, leb, if◌then◌else◌}
use pact_protobuf_plugin.Base.Lists.{length}
use pact_protobuf_plugin.Base.Text.{Text}
use pact_protobuf_plugin.Base.Int.{ℤ, pos, neg}
use Prim.Native.Nat.{ℕ, zero, suc, ◌+◌, ◌-◌, ◌*◌, ◌/◌, ◌%◌, ◌^◌, ◌<◌}
use mathlib.Core.Path.{◌≡◌, refl, ap}
use mathlib.Core.Bool.{Bool, true, false, ◌&&◌}
use mathlib.Core.List.{List, [], ◌∷◌}
use mathlib.Core.Option.{Option, none, some}
use native.Mathlib.Nat.{pow-suc}
use native.Mathlib.Omega.{arith}

-- `n.to_le_bytes()` of a number of `k` bytes, and `from_le_bytes`.
abbrev pub to_le_bytes : ℕ → ℕ → List ℕ
to_le_bytes zero n = []
to_le_bytes (suc k) n = (n % 256) ∷ to_le_bytes k (n / 256)

abbrev pub from_le_bytes : List ℕ → ℕ
from_le_bytes [] = 0
from_le_bytes (b ∷ bs) = b + 256 * from_le_bytes bs

pub length-to_le_bytes : (k n : ℕ) → length (to_le_bytes k n) ≡ k
length-to_le_bytes zero n = refl
length-to_le_bytes (suc k) n = ap suc (length-to_le_bytes k (n / 256))

pub from_le_bytes-to_le_bytes : (k n : ℕ) → n < 256 ^ k → from_le_bytes (to_le_bytes k n) ≡ n
from_le_bytes-to_le_bytes zero n h = omega arith
from_le_bytes-to_le_bytes (suc k) n h =
    omega (arith, from_le_bytes-to_le_bytes k (n / 256) (omega (arith, pow-suc 256 k)))

-- What a lead byte of UTF-8 asks for: how many bytes follow, and the range of the first of them.
utf8_lead : ℕ → Option (ℕ × ℕ × ℕ)
utf8_lead c =
    if ltb c 0x80
    then some (0, 0, 0)
    else if leb 0xc2 c && leb c 0xdf
    then some (1, 0x80, 0xbf)
    else if c == 0xe0
    then some (2, 0xa0, 0xbf)
    else if c == 0xed
    then some (2, 0x80, 0x9f)
    else if leb 0xe1 c && leb c 0xef
    then some (2, 0x80, 0xbf)
    else if c == 0xf0
    then some (3, 0x90, 0xbf)
    else if leb 0xf1 c && leb c 0xf3
    then some (3, 0x80, 0xbf)
    else if c == 0xf4
    then some (3, 0x80, 0x8f)
    else none

-- The bytes are valid where `pending` more bytes of a character are due, the next between `lo` and
-- `hi`.
utf8_run : ℕ → ℕ → ℕ → List ℕ → Bool
unfolding utf8_lead
utf8_run zero lo hi [] = true
utf8_run (suc pending) lo hi [] = false
utf8_run zero lo hi (c ∷ t) = elim (utf8_lead c) [
  | some (n, lo', hi') ↦ utf8_run n lo' hi' t
  | none ↦ false
]
utf8_run (suc pending) lo hi (c ∷ t) = (leb lo c && leb c hi) && utf8_run pending 0x80 0xbf t

-- `from_utf8(bytes).is_ok()`.
unfoldable pub is_utf8 : List ℕ → Bool
unfolding utf8_run
is_utf8 bytes = utf8_run 0 0 0 bytes

-- `str::parse` for integers: digits behind an optional sign, within the range of the type.
unfoldable pub parse_digits : ℕ → Text → Option ℕ
parse_digits acc [] = some acc
parse_digits acc (c ∷ t) =
    let rest = parse_digits (acc * 10 + (c - b'0')) t in
    if leb b'0' c && leb c b'9' then rest else none

unfoldable pub parse_magnitude : Text → Option ℕ
unfolding parse_digits
parse_magnitude [] = none
parse_magnitude (c ∷ t) = parse_digits 0 (c ∷ t)

-- A number below the limit; a minus sign is no digit.
unfoldable pub parse_unsigned : ℕ → Text → Option ℕ
unfolding parse_magnitude
parse_unsigned limit [] = none
parse_unsigned limit (c ∷ t) = elim (parse_magnitude (if c == b'+' then t else c ∷ t)) [
  | some n ↦ if ltb n limit then some n else none
  | none ↦ none
]

-- A number from -limit to limit - 1.
unfoldable pub parse_signed : ℕ → Text → Option ℤ
unfolding parse_magnitude neg
parse_signed limit [] = none
parse_signed limit (c ∷ t) =
    if c == b'-'
    then (elim (parse_magnitude t) [
      | some n ↦ if leb n limit then some (neg (pos n)) else none
      | none ↦ none
    ])
    else (elim (parse_magnitude (if c == b'+' then t else c ∷ t)) [
      | some n ↦ if ltb n limit then some (pos n) else none
      | none ↦ none
    ])
