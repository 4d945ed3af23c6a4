-- ===== src/Region.antt =====
-- src/utils/region.rs: normalized names of administrative regions.
--
-- `str::to_lowercase` follows the Unicode tables and is an argument. The suffixes are compared and cut
-- in code points, which for UTF-8 text is the same as in bytes.
use mathlib.Core.List.{reverse}
use disaster_alert.Prelude.{
  ℕ, ◌-◌, Bool, ◌&&◌, ◌||◌, none, some, List, [], ◌∷◌, ◌==◌, ltb, leb, if◌then◌else◌, length, take,
  drop, find?,
}
use disaster_alert.Text.{Text, text, text_eq, byte_len}

-- `char::is_whitespace`: the code points with the property White_Space.
is_whitespace : ℕ → Bool
is_whitespace c =
    (leb 0x9 c && leb c 0xd)
    || c == 0x20
    || c == 0x85
    || c == 0xa0
    || c == 0x1680
    || (leb 0x2000 c && leb c 0x200a)
    || c == 0x2028
    || c == 0x2029
    || c == 0x202f
    || c == 0x205f
    || c == 0x3000

trim_start : Text → Text
trim_start [] = []
trim_start (c ∷ cs) = let rest = trim_start cs in if is_whitespace c then rest else c ∷ cs

-- `str::trim`.
unfoldable pub trim : Text → Text
unfolding is_whitespace trim_start
trim s = reverse (trim_start (reverse (trim_start s)))

abbrev pub admin_suffixes : List Text
admin_suffixes =
    text "特别行政区"
    ∷ text "自治区"
    ∷ text "自治州"
    ∷ text "自治县"
    ∷ text "地区"
    ∷ text "盟"
    ∷ text "省"
    ∷ text "市"
    ∷ text "县"
    ∷ text "区"
    ∷ []

-- `str::ends_with`.
unfoldable pub ends_with : Text → Text → Bool
ends_with s suffix =
    leb (length suffix) (length s) && text_eq (drop (length s - length suffix) s) suffix

-- `normalize` behind `trim` and `to_lowercase`.
unfoldable pub strip_admin_suffix : Text → Text
unfolding ends_with byte_len find?
strip_admin_suffix value =
    elim (find? (λ suffix. ends_with value suffix && ltb (byte_len suffix) (byte_len value))
      admin_suffixes) [ none ↦ value | some suffix ↦ take (length value - length suffix) value ]

unfoldable pub normalize : (Text → Text) → Text → Text
unfolding trim strip_admin_suffix
normalize to_lowercase value = strip_admin_suffix (to_lowercase (trim value))
