-- ===== src/Delivery.antt =====
-- src/delivery/mod.rs: what the matcher asks to be delivered, and what became of it.
use disaster_alert.Prelude.{ℕ, List, Bool, true, false, ◌&&◌, ◌==◌, ◌≡◌, ◌↔◌, arith}
use disaster_alert.Text.{Text, text_eq, text_eq_iff}
use disaster_alert.Prelude.Int.{ℤ, leb_ℤ}
use disaster_alert.Event.{DisasterCategory}
use disaster_alert.Incident.{IncidentId}

pub data InterruptionLevel : Type 0 where
  passive active critical : InterruptionLevel

unfoldable pub level_eq : InterruptionLevel → InterruptionLevel → Bool
level_eq passive passive = true
level_eq active active = true
level_eq critical critical = true
level_eq _ _ = false

pub record DeliveryRow : Type 0 where
  pub destination_id : ℕ
  pub subscription_id : ℕ
  pub generation : ℕ
  pub target_ordinal : ℕ
  pub match_kind : ℕ
  pub interruption_level : InterruptionLevel
  pub distance_m : ℕ
  pub intensity_cent : ℕ

pub record DeliveryBatch : Type 0 where
  pub id : ℕ
  pub incident_id : IncidentId
  pub event_revision : ℕ
  pub category : DisasterCategory
  pub shard : ℕ
  pub created_at_ms : ℤ
  pub rows : List DeliveryRow

-- The limit on the encoded form of a batch.
abbrev pub max_delivery_batch_bytes : ℕ
max_delivery_batch_bytes = 262144

pub level_eq_iff : (a b : InterruptionLevel) → (level_eq a b ≡ true) ↔ (a ≡ b)
unfolding level_eq
level_eq_iff passive passive = ground arith
level_eq_iff passive active = ground arith
level_eq_iff passive critical = ground arith
level_eq_iff active passive = ground arith
level_eq_iff active active = ground arith
level_eq_iff active critical = ground arith
level_eq_iff critical passive = ground arith
level_eq_iff critical active = ground arith
level_eq_iff critical critical = ground arith

unfoldable pub row_eq : DeliveryRow → DeliveryRow → Bool
unfolding level_eq
row_eq a b =
    a.destination_id == b.destination_id
    && a.subscription_id == b.subscription_id
    && a.generation == b.generation
    && a.target_ordinal == b.target_ordinal
    && a.match_kind == b.match_kind
    && level_eq a.interruption_level b.interruption_level
    && a.distance_m == b.distance_m
    && a.intensity_cent == b.intensity_cent

pub record RetryItem : Type 0 where
  pub id : ℕ
  pub batch_id : ℕ
  pub row_index : ℕ
  pub destination_id : ℕ
  pub due_at_ms : ℤ
  pub attempts : ℕ
  pub created_at_ms : ℤ
  pub last_error : Text

int_eq : ℤ → ℤ → Bool
int_eq a b = leb_ℤ a b && leb_ℤ b a

unfoldable pub retry_eq : RetryItem → RetryItem → Bool
unfolding text_eq int_eq
retry_eq a b =
    a.id == b.id
    && a.batch_id == b.batch_id
    && a.row_index == b.row_index
    && a.destination_id == b.destination_id
    && int_eq a.due_at_ms b.due_at_ms
    && a.attempts == b.attempts
    && int_eq a.created_at_ms b.created_at_ms
    && text_eq a.last_error b.last_error

pub retry_eq_iff : (a b : RetryItem) → (retry_eq a b ≡ true) ↔ (a ≡ b)
unfolding retry_eq int_eq
retry_eq_iff a b = ground (arith, text_eq_iff a.last_error b.last_error)

pub record DeliverySuccess : Type 0 where
  pub row_index : ℕ
  pub row : DeliveryRow

pub record DeadLetterItem : Type 0 where
  pub id : ℕ
  pub batch_id : ℕ
  pub row_index : ℕ
  pub destination_id : ℕ
  pub attempts : ℕ
  pub created_at_ms : ℤ
  pub failed_at_ms : ℤ
  pub permanent : Bool
  pub last_error : Text
