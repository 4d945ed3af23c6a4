-- ===== src/Examples/Confirmations.antt =====
-- The theorems on confirmations at one that is begun, leased and put off.
use disaster_alert.Prelude.{ℕ, ◌≡◌, refl, Bool, true, none, some, [], ◌∷◌, arith}
use disaster_alert.Prelude.Int.{pos}
use disaster_alert.Text.{text}
use disaster_alert.Storage.{Store, Result, ok, err, empty_store}
use disaster_alert.Storage.Keyspace.{get, nat_key, text_key}
use disaster_alert.Subscription.{Subscription, all_sources, report_rule}
use disaster_alert.Subscription.Validate.{Urls, validate, valid}
use disaster_alert.Subscription.Confirmations.{
  LeasedSubscriptionConfirmation, begin_lease, reschedule_confirmation, first_lease, lease_of,
  confirmation_token,
}
use disaster_alert.Subscription.Confirmations.Runs.{
  IsSound, no_step, more_step, begun, put_off, ConfirmationRun-IsSound,
}
use disaster_alert.Subscription.Confirmations.Fencing.{Fenced, by_reschedule, Revoked-Fenced}
use disaster_alert.Examples.{plain}
use disaster_alert.Examples.Formats.{numbers}

abbrev pub https : Urls
https = record {
  url_parse = λ value. some (record {
    scheme = text "https";
    host_str = some (text "api.day.app");
    username = [];
    password = none;
    query = none;
    fragment = none;
    as_str = value;
  });
}

abbrev pub subscriber : Subscription
subscriber = record {
  destination = record { base_url = text "https://api.day.app"; device_key = text "abc123" };
  targets =
      (record {
        label = text "home";
        point = record { latitude = 0x4041800000000000; longitude = 0x405a400000000000 };
        region = record { province = []; city = []; district = [] };
      })
      ∷ [];
  alerts = report_rule all_sources 0x4012000000000000 ∷ [];
  created_at = pos 0;
  updated_at = pos 0;
}

subscriber-valid : validate https subscriber ≡ valid
unfolding validate
subscriber-valid = refl

abbrev store_of : {A : Type 0} → Result (A × Store) → Store
store_of (ok r) = r.1
store_of (err e) = empty_store

abbrev begun_store : Store
begun_store =
    store_of (begin_lease plain https numbers subscriber (pos 100) (pos 60000) empty_store)

abbrev lease : LeasedSubscriptionConfirmation
lease =
    lease_of (first_lease plain 1 subscriber (pos 100) (pos 60000)) (confirmation_token plain 1 1)

begun_run :
    begin_lease plain https numbers subscriber (pos 100) (pos 60000) empty_store
    ≡ ok (lease, begun_store)
unfolding begin_lease numbers
begun_run = refl

abbrev token : ℕ
token = confirmation_token plain 1 1

abbrev put_off_result : Result (Bool × Store)
put_off_result =
    reschedule_confirmation plain numbers 1 token (pos 200) (pos 5000) (text "timeout") begun_store

put_off_run : put_off_result ≡ ok (true, store_of put_off_result)
unfolding begin_lease numbers reschedule_confirmation
put_off_run = refl

empty_store-IsSound : IsSound plain numbers empty_store
unfolding get
empty_store-IsSound = record {
  indexed = record {
    named = λ id bytes h. absurd (ground arith);
    stored = λ key id h. absurd (ground arith);
  };
  below = λ id bytes h. absurd (ground arith);
}

ConfirmationRun-IsSound_example : IsSound plain numbers (store_of put_off_result)
ConfirmationRun-IsSound_example =
    ConfirmationRun-IsSound plain numbers
      (more_step (more_step no_step (begun https subscriber (pos 100) (pos 60000) lease begun_run))
        (put_off 1 token (pos 200) (pos 5000) (text "timeout") true put_off_run))
      empty_store-IsSound

Revoked-Fenced_example : Fenced plain numbers 1 token (store_of put_off_result)
Revoked-Fenced_example =
    Revoked-Fenced plain numbers 1 token begun_store (store_of put_off_result)
      (by_reschedule (pos 200) (pos 5000) (text "timeout") put_off_run)
