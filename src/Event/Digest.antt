-- ===== src/Event/Digest.antt =====
-- src/models/disaster.rs: the digest that identifies one update of an event.
--
-- SHA-256, URL-safe base64 and the lower-case tables are not the program's: they are the fields of a
-- `Platform`.
use disaster_alert.Prelude.{
  ℕ, zero, suc, ◌+◌, ◌/◌, ◌%◌, ◌^◌, Bool, true, false, not, ◌&&◌, ◌||◌, Option, none, some, List,
  [], ◌∷◌, ◌++◌, ◌==◌, ltb, if◌then◌else◌, length, take, filter, map,
}
use disaster_alert.Text.{Text, text, text_eq, byte_len, is_empty}
use disaster_alert.Region.{normalize}
use disaster_alert.Event.{DisasterEvent, category_str, channel_str}
use disaster_alert.Event.Float.{F64, f64_eq}

pub record Platform : Type 0 where
  pub sha256 : List ℕ → List ℕ
  pub base64url : List ℕ → Text
  pub to_lowercase : Text → Text

-- The UTF-8 bytes of a character.
encode_utf8 : ℕ → List ℕ
encode_utf8 c =
    if ltb c 0x80
    then c ∷ []
    else if ltb c 0x800
    then (0xc0 + c / 64) ∷ (0x80 + c % 64) ∷ []
    else if ltb c 0x10000
    then (0xe0 + c / 4096) ∷ (0x80 + (c / 64) % 64) ∷ (0x80 + c % 64) ∷ []
    else (0xf0 + c / 262144)
      ∷ (0x80 + (c / 4096) % 64)
      ∷ (0x80 + (c / 64) % 64)
      ∷ (0x80 + c % 64)
      ∷ []

-- `str::as_bytes`.
unfoldable pub as_bytes : Text → List ℕ
unfolding encode_utf8
as_bytes [] = []
as_bytes (c ∷ cs) = encode_utf8 c ++ as_bytes cs

-- `to_be_bytes` of a number of `n` bytes.
unfoldable pub to_be_bytes : ℕ → ℕ → List ℕ
to_be_bytes zero x = []
to_be_bytes (suc n) x = ((x / 256 ^ n) % 256) ∷ to_be_bytes n x

bit : Bool → ℕ
bit true = 1
bit false = 0

-- The bytes that `hash_string` adds.
unfoldable pub hash_string : Text → List ℕ
unfolding byte_len as_bytes to_be_bytes
hash_string s = to_be_bytes 8 (byte_len s) ++ as_bytes s

-- The bytes that `hash_optional_f64` adds: both zeros are hashed as the positive one.
unfoldable pub hash_optional_f64 : Option F64 → List ℕ
unfolding to_be_bytes f64_eq
hash_optional_f64 none = 0 ∷ []
hash_optional_f64 (some x) = 1 ∷ to_be_bytes 8 (if f64_eq x 0 then 0 else x)

-- The order of `String`: by bytes, which is by code points.
text_leb : Text → Text → Bool
text_leb [] ys = true
text_leb (x ∷ xs) [] = false
text_leb (x ∷ xs) (y ∷ ys) = ltb x y || (x == y && text_leb xs ys)

insert_text : Text → List Text → List Text
insert_text a [] = a ∷ []
insert_text a (b ∷ bs) =
    let rest = insert_text a bs in if text_leb a b then a ∷ b ∷ bs else b ∷ rest

-- `sort_unstable`; equal strings cannot be told apart.
sort_texts : List Text → List Text
sort_texts [] = []
sort_texts (a ∷ as') = insert_text a (sort_texts as')

dedup_from : Text → List Text → List Text
dedup_from a [] = a ∷ []
dedup_from a (b ∷ bs) = if text_eq a b then dedup_from a bs else a ∷ dedup_from b bs

-- `Vec::dedup`.
dedup : List Text → List Text
dedup [] = []
dedup (a ∷ as') = dedup_from a as'

concat_map_strings : List Text → List ℕ
concat_map_strings [] = []
concat_map_strings (s ∷ ss) = hash_string s ++ concat_map_strings ss

module _ (p : Platform) where
  open p use {sha256, base64url, to_lowercase}

  -- The regions of an event in the form in which they are hashed.
  unfoldable pub hashed_regions : List Text → List Text
  unfolding normalize filter is_empty text_eq text_leb insert_text sort_texts dedup_from dedup
  hashed_regions regions =
      dedup (sort_texts (filter (λ r. not (is_empty r)) (map (normalize to_lowercase) regions)))

  -- All bytes that `event_update_digest` gives to the hash.
  unfoldable pub update_message : DisasterEvent → List ℕ
  unfolding hash_string hash_optional_f64 hashed_regions category_str channel_str bit
      concat_map_strings
  update_message e =
      let regions = hashed_regions e.affected_regions in
      as_bytes (text "disaster-alert:event-update:v1")
      ++ (0 ∷ hash_string (category_str e.category))
      ++ hash_string (channel_str e.channel)
      ++ concat_map_strings
          (e.source ∷ e.event_id ∷ e.revision ∷ e.title ∷ e.description ∷ e.occurred_at ∷ [])
      ++ to_be_bytes 4 e.report_num
      ++ hash_optional_f64 e.latitude
      ++ hash_optional_f64 e.longitude
      ++ hash_optional_f64 e.magnitude
      ++ hash_optional_f64 e.depth_km
      ++ hash_optional_f64 e.radius_km
      ++ to_be_bytes 8 (length regions)
      ++ concat_map_strings regions
      ++ (e.level ∷ bit e.final_report ∷ bit e.cancel ∷ bit e.training ∷ [])

  -- `event_update_digest` is the first 16 bytes of the hash, and `event_update_id` their text.
  unfoldable pub event_update_id : DisasterEvent → Text
  unfolding update_message
  event_update_id e = base64url (take 16 (sha256 (update_message e)))
