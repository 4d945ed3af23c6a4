-- ===== src/Examples/Formats.antt =====
-- A format in which subscriptions and their confirmations are written as lists of numbers and read
-- back, to stand for the codec of the store.
use disaster_alert.Prelude.{
  ℕ, zero, suc, ◌≡◌, ◌⊎◌, refl, Option, none, some, List, [], ◌∷◌, inl, inr, length,
}
use disaster_alert.Prelude.Int.{ℤ, pos, negsuc}
use disaster_alert.Text.{Text}
use disaster_alert.Delivery.{InterruptionLevel, passive, active, critical}
use disaster_alert.Subscription.{
  MonitoringTarget, SourceSelection, all_sources, include, IntensityBand, AlertRule, warning_rule,
  report_rule, weather_rule, tsunami_rule, typhoon_rule, Subscription,
}
use disaster_alert.Subscription.Confirmations.{
  ConfirmationState, ready, leased, ConfirmationOperation, ConfirmationCodec,
}

-- A value is written before what follows it.
record Format (A : Type 0) : Type 0 where
  write : A → List ℕ → List ℕ
  read : List ℕ → Option (A × List ℕ)
  read-write : (a : A) (rest : List ℕ) → read (write a rest) ≡ some (a, rest)

abbrev number : Format ℕ
number = record {
  write = λ n rest. n ∷ rest;
  read = λ bytes. elim bytes [ [] ↦ none | n ∷ rest ↦ some (n, rest) ];
  read-write = λ n rest. refl;
}

abbrev and_then : {A B : Type 0} → Option A → (A → Option B) → Option B
and_then none f = none
and_then (some a) f = f a

module _ {A B : Type 0} (f : Format A) (g : Format B) where
  read_pair : List ℕ → Option ((A × B) × List ℕ)
  read_pair bytes =
      and_then (f.read bytes) λ one. and_then (g.read one.1) λ two. some ((one.0, two.0), two.1)

  pair_lem :
      (p : A × B) (rest : List ℕ) → read_pair (f.write p.0 (g.write p.1 rest)) ≡ some (p, rest)
  unfolding read_pair
  pair_lem (a, b) rest = rw (f.read-write a (g.write b rest), g.read-write b rest)

  abbrev pair : Format (A × B)
  unfolding read_pair
  pair = record {
    write = λ p rest. f.write p.0 (g.write p.1 rest);
    read = read_pair;
    read-write = pair_lem;
  }

  write_either : A ⊎ B → List ℕ → List ℕ
  write_either (inl a) rest = 0 ∷ f.write a rest
  write_either (inr b) rest = 1 ∷ g.write b rest

  read_either : List ℕ → Option ((A ⊎ B) × List ℕ)
  read_either [] = none
  read_either (zero ∷ rest) = and_then (f.read rest) λ one. some (inl one.0, one.1)
  read_either (suc n ∷ rest) = and_then (g.read rest) λ one. some (inr one.0, one.1)

  either_lem : (e : A ⊎ B) (rest : List ℕ) → read_either (write_either e rest) ≡ some (e, rest)
  unfolding read_either write_either
  either_lem (inl a) rest = rw (f.read-write a rest)
  either_lem (inr b) rest = rw (g.read-write b rest)

  abbrev either : Format (A ⊎ B)
  unfolding read_either write_either
  either = record { write = write_either; read = read_either; read-write = either_lem }

module _ {A : Type 0} (f : Format A) where
  write_all : List A → List ℕ → List ℕ
  write_all [] rest = rest
  write_all (x ∷ xs) rest = f.write x (write_all xs rest)

  read_all : ℕ → List ℕ → Option (List A × List ℕ)
  read_all zero bytes = some ([], bytes)
  read_all (suc n) bytes =
      and_then (f.read bytes)
        λ one. and_then (read_all n one.1) λ more. some (one.0 ∷ more.0, more.1)

  read_list : List ℕ → Option (List A × List ℕ)
  unfolding read_all
  read_list [] = none
  read_list (n ∷ rest) = read_all n rest

  all_lem :
      (xs : List A) (rest : List ℕ) → read_all (length xs) (write_all xs rest) ≡ some (xs, rest)
  unfolding read_all write_all
  all_lem [] rest = refl
  all_lem (x ∷ xs) rest = rw (f.read-write x (write_all xs rest), all_lem xs rest)

  list_lem :
      (xs : List A) (rest : List ℕ) → read_list (length xs ∷ write_all xs rest) ≡ some (xs, rest)
  unfolding read_list
  list_lem xs rest = all_lem xs rest

  abbrev list : Format (List A)
  unfolding read_list write_all
  list = record {
    write = λ xs rest. length xs ∷ write_all xs rest;
    read = read_list;
    read-write = list_lem;
  }

-- A type that goes into another and back.
module _ {A B : Type 0} (f : Format B) (into : A → B) (back : B → A)
    (back-into : (a : A) → back (into a) ≡ a) where
  read_as : List ℕ → Option (A × List ℕ)
  read_as bytes = and_then (f.read bytes) λ one. some (back one.0, one.1)

  as_lem : (a : A) (rest : List ℕ) → read_as (f.write (into a) rest) ≡ some (a, rest)
  unfolding read_as
  as_lem a rest = rw (f.read-write (into a) rest, back-into a)

  abbrev as_format : Format A
  unfolding read_as
  as_format = record {
    write = λ a rest. f.write (into a) rest;
    read = read_as;
    read-write = as_lem;
  }

abbrev option_into : {A : Type 0} → Option A → ℕ ⊎ A
option_into none = inl 0
option_into (some a) = inr a

abbrev option_back : {A : Type 0} → ℕ ⊎ A → Option A
option_back (inl n) = none
option_back (inr a) = some a

option_lem : {A : Type 0} (o : Option A) → option_back (option_into o) ≡ o
option_lem none = refl
option_lem (some a) = refl

abbrev option : {A : Type 0} → Format A → Format (Option A)
unfolding as_format either
option f = as_format (either number f) option_into option_back option_lem

abbrev int_into : ℤ → ℕ ⊎ ℕ
int_into (pos n) = inl n
int_into (negsuc n) = inr n

abbrev int_back : ℕ ⊎ ℕ → ℤ
int_back (inl n) = pos n
int_back (inr n) = negsuc n

int_lem : (i : ℤ) → int_back (int_into i) ≡ i
int_lem (pos n) = refl
int_lem (negsuc n) = refl

abbrev integer : Format ℤ
unfolding as_format either
integer = as_format (either number number) int_into int_back int_lem

abbrev level_into : InterruptionLevel → ℕ
level_into passive = 0
level_into active = 1
level_into critical = 2

abbrev level_back : ℕ → InterruptionLevel
level_back zero = passive
level_back (suc zero) = active
level_back (suc (suc n)) = critical

level_lem : (l : InterruptionLevel) → level_back (level_into l) ≡ l
level_lem passive = refl
level_lem active = refl
level_lem critical = refl

abbrev sources_into : SourceSelection → Option (List Text)
sources_into all_sources = none
sources_into (include ids) = some ids

abbrev sources_back : Option (List Text) → SourceSelection
sources_back none = all_sources
sources_back (some ids) = include ids

sources_lem : (s : SourceSelection) → sources_back (sources_into s) ≡ s
sources_lem all_sources = refl
sources_lem (include ids) = refl

abbrev string : Format Text
unfolding list
string = list number

abbrev selection : Format SourceSelection
unfolding as_format option string
selection = as_format (option (list string)) sources_into sources_back sources_lem

abbrev band : Format IntensityBand
unfolding as_format pair
band =
    as_format (pair number (pair number (as_format number level_into level_back level_lem)))
      (λ b. (b.min, (b.max, b.interruption_level)))
      (λ t. record { min = t.0; max = t.1.0; interruption_level = t.1.1 }) (λ b. refl)

abbrev RuleFields : Type 0
RuleFields =
    (SourceSelection × List IntensityBand)
    ⊎ ((SourceSelection × ℕ)
        ⊎ ((SourceSelection × (ℕ × ℕ)) ⊎ ((SourceSelection × ℕ) ⊎ (SourceSelection × ℕ))))

abbrev rule_into : AlertRule → RuleFields
rule_into (warning_rule s bands) = inl (s, bands)
rule_into (report_rule s m) = inr (inl (s, m))
rule_into (weather_rule s v r) = inr (inr (inl (s, (v, r))))
rule_into (tsunami_rule s v) = inr (inr (inr (inl (s, v))))
rule_into (typhoon_rule s d) = inr (inr (inr (inr (s, d))))

abbrev rule_back : RuleFields → AlertRule
rule_back (inl (s, bands)) = warning_rule s bands
rule_back (inr (inl (s, m))) = report_rule s m
rule_back (inr (inr (inl (s, (v, r))))) = weather_rule s v r
rule_back (inr (inr (inr (inl (s, v))))) = tsunami_rule s v
rule_back (inr (inr (inr (inr (s, d))))) = typhoon_rule s d

rule_lem : (r : AlertRule) → rule_back (rule_into r) ≡ r
rule_lem (warning_rule s bands) = refl
rule_lem (report_rule s m) = refl
rule_lem (weather_rule s v r) = refl
rule_lem (tsunami_rule s v) = refl
rule_lem (typhoon_rule s d) = refl

abbrev rule : Format AlertRule
unfolding as_format either pair selection list band
rule =
    as_format
      (either (pair selection (list band)) (
        either (pair selection number) (
          either (pair selection (pair number number))
            (either (pair selection number) (pair selection number)))))
      rule_into rule_back rule_lem

abbrev target : Format MonitoringTarget
unfolding as_format pair string
target =
    as_format (pair string (pair (pair number number) (pair string (pair string string))))
      (λ t. (
        t.label,
        (
          (t.point.latitude, t.point.longitude),
          (t.region.province, (t.region.city, t.region.district)),
        ),
      ))
      (λ t. record {
        label = t.0;
        point = record { latitude = t.1.0.0; longitude = t.1.0.1 };
        region = record { province = t.1.1.0; city = t.1.1.1.0; district = t.1.1.1.1 };
      })
      (λ t. refl)

abbrev subscription : Format Subscription
unfolding as_format pair string list target rule integer
subscription =
    as_format
      (pair (pair string string) (pair (list target) (pair (list rule) (pair integer integer))))
      (λ s. (
        (s.destination.base_url, s.destination.device_key),
        (s.targets, (s.alerts, (s.created_at, s.updated_at))),
      ))
      (λ t. record {
        destination = record { base_url = t.0.0; device_key = t.0.1 };
        targets = t.1.0;
        alerts = t.1.1.0;
        created_at = t.1.1.1.0;
        updated_at = t.1.1.1.1;
      })
      (λ s. refl)

abbrev state_into : ConfirmationState → ℕ
state_into ready = 0
state_into leased = 1

abbrev state_back : ℕ → ConfirmationState
state_back zero = ready
state_back (suc n) = leased

state_lem : (s : ConfirmationState) → state_back (state_into s) ≡ s
state_lem ready = refl
state_lem leased = refl

abbrev operation : Format ConfirmationOperation
unfolding as_format pair subscription integer option string
operation =
    as_format
      (pair number (
        pair subscription (
          pair (as_format number state_into state_back state_lem) (
            pair integer (
              pair (option integer) (
                pair (option number)
                  (pair number (pair number (pair integer (option string))))))))))
      (λ op. (
        op.id,
        (
          op.subscription,
          (
            op.state,
            (
              op.due_at_ms,
              (
                op.lease_until_ms,
                (
                  op.lease_token,
                  (op.lease_generation, (op.attempts, (op.created_at_ms, op.last_error))),
                ),
              ),
            ),
          ),
        ),
      ))
      (λ t. record {
        id = t.0;
        subscription = t.1.0;
        state = t.1.1.0;
        due_at_ms = t.1.1.1.0;
        lease_until_ms = t.1.1.1.1.0;
        lease_token = t.1.1.1.1.1.0;
        lease_generation = t.1.1.1.1.1.1.0;
        attempts = t.1.1.1.1.1.1.1.0;
        created_at_ms = t.1.1.1.1.1.1.1.1.0;
        last_error = t.1.1.1.1.1.1.1.1.1;
      })
      (λ op. refl)

read_operation : List ℕ → Option ConfirmationOperation
unfolding operation
read_operation bytes = and_then (operation.read bytes) λ one. some one.0

operation_lem : (op : ConfirmationOperation) → read_operation (operation.write op []) ≡ some op
unfolding read_operation
operation_lem op = rw (operation.read-write op [])

unfoldable pub numbers : ConfirmationCodec
unfolding operation read_operation as_lem pair_lem list_lem either_lem option_lem sources_lem
    level_lem rule_lem int_lem state_lem operation_lem all_lem
numbers = record {
  encode_record = λ op. operation.write op [];
  from_reader = read_operation;
  from_reader-encode_record = operation_lem;
}
