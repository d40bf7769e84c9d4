-- ===== src/Schemas/Timestamp.antt =====
-- The texts that the guards of src/modules/ocpp/messages/schemas.ts accept: `ISO_DATE_REGEX`, the test for
-- a zone, and `trim`. Each regular expression is a matcher that reads the text once: where the source's
-- would backtrack, the next part begins with another character, so no other match exists.
pub mod Zones
use Prim.Native.Char.{code}
use Prim.Native.String.{[], ◌∷◌}
use voltron_ocpp_protocols.Common.{
  ℕ, List, [], ◌∷◌, Bool, true, false, ◌&&◌, ◌||◌, String, ◌==◌, nat_eq, leb, if◌then◌else◌, Option,
  none, some, ◌>>=◌,
}

-- White space and line ends, of which `trim` takes off the code points.
abbrev pub is_space : ℕ → Bool
is_space c =
    leb 9 c && leb c 13
    || c == 32
    || c == 0xa0
    || c == 0x1680
    || leb 0x2000 c && leb c 0x200a
    || c == 0x2028
    || c == 0x2029
    || c == 0x202f
    || c == 0x205f
    || c == 0x3000
    || c == 0xfeff

-- `value.trim().length === 0`
unfoldable pub is_blank : String → Bool
is_blank [] = true
is_blank (c ∷ s) = is_space (code c) && is_blank s

abbrev is_digit : ℕ → Bool
is_digit c = leb b'0' c && leb c b'9'

-- The classes of one character in the two patterns: `\d`, `[+-]`, and a character as it stands.
pub data Class : Type 0 where
  d sign : Class
  char : ℕ → Class

unfoldable pub accepts : Class → ℕ → Bool
accepts d c = is_digit c
accepts sign c = c == b'+' || c == b'-'
accepts (char b) c = c == b

-- A sequence of classes at the front of a text; what is behind it.
unfoldable pub front : List Class → String → Option String
front [] s = some s
front (p ∷ ps) [] = none
front (p ∷ ps) (c ∷ s) = if accepts p (code c) then front ps s else none

-- `\d{4}-\d{2}-\d{2}T\d{2}:\d{2}:\d{2}`
abbrev pub date_time : List Class
date_time =
    d
    ∷ d
    ∷ d
    ∷ d
    ∷ char b'-'
    ∷ d
    ∷ d
    ∷ char b'-'
    ∷ d
    ∷ d
    ∷ char b'T'
    ∷ d
    ∷ d
    ∷ char b':'
    ∷ d
    ∷ d
    ∷ char b':'
    ∷ d
    ∷ d
    ∷ []

-- `[+-]\d{2}:\d{2}`
abbrev pub offset : List Class
offset = sign ∷ d ∷ d ∷ char b':' ∷ d ∷ d ∷ []

-- `\d*`
unfoldable pub skip_digits : String → String
skip_digits [] = []
skip_digits (c ∷ s) = if accepts d (code c) then skip_digits s else c ∷ s

-- `(?:\.\d+)?`
unfoldable pub fraction : String → Option String
fraction [] = some []
fraction (c ∷ s) =
    if code c == b'.' then (do rest ← front (d ∷ []) s; some (skip_digits rest)) else some (c ∷ s)

unfoldable pub is_empty : String → Bool
is_empty [] = true
is_empty (c ∷ s) = false

-- `^[+-]\d{2}:\d{2}$`
unfoldable pub is_offset : String → Bool
is_offset s = elim (front offset s) [ none ↦ false | some rest ↦ is_empty rest ]

-- `^Z$`
unfoldable pub is_z : String → Bool
is_z [] = false
is_z (c ∷ s) = code c == b'Z' && is_empty s

-- `ISO_DATE_REGEX.test(s)`
unfoldable pub is_iso_date : String → Bool
is_iso_date s = elim (do rest ← front date_time s; fraction rest) [
  | none ↦ false
  | some rest ↦ is_empty rest || is_z rest || is_offset rest
]

-- `/[+-]\d{2}:\d{2}$/.test(s)`
unfoldable pub ends_with_offset : String → Bool
ends_with_offset [] = false
ends_with_offset (c ∷ s) = is_offset (c ∷ s) || ends_with_offset s

-- `s.endsWith('Z')`
unfoldable pub ends_with_z : String → Bool
ends_with_z [] = false
ends_with_z (c ∷ s) = is_z (c ∷ s) || ends_with_z s

-- `/[+-]\d{2}:\d{2}$/.test(s) || s.endsWith('Z')`
unfoldable pub has_zone : String → Bool
has_zone s = ends_with_offset s || ends_with_z s
