-- ===== src/Incident/Record/Streams.antt =====
-- One watermark and one latest report for each stream.
use disaster_alert.Prelude.{
  ℕ, ◌≡◌, refl, sym, ap, ◌∙◌, Bool, true, false, ◌&&◌, List, [], ◌∷◌, ◌++◌, leb, length, tail, any,
  modify_first, Bool-cases, inl, inr, arith,
}
use disaster_alert.Prelude.Finds.{any-append, any-modify_first}
use disaster_alert.Text.{Text, text_eq, text_eq_iff}
use disaster_alert.Event.{DisasterCategory, DisasterEvent, category_eq}
use disaster_alert.Event.Key.{category_eq_iff}
use disaster_alert.Event.Digest.{Platform}
use mathlib.Core.Path.{fun_ext}
use disaster_alert.Incident.{max_latest_sources}
use disaster_alert.Incident.Watermark.{
  IncidentStreamWatermark, matches, commit, advance, from_event, remember_update,
}
use disaster_alert.Incident.Record.{push_watermark, push_latest, push_bounded, same_stream}

-- What identifies a stream of reports.
pub record Stream : Type 0 where
  pub category : DisasterCategory
  pub source : Text
  pub event_id : Text

pub stream_eq : Stream → Stream → Bool
stream_eq s t =
    category_eq s.category t.category && text_eq s.source t.source && text_eq s.event_id t.event_id

abbrev pub watermark_stream : IncidentStreamWatermark → Stream
watermark_stream w = record { category = w.category; source = w.source; event_id = w.event_id }

abbrev pub event_stream : DisasterEvent → Stream
event_stream e = record { category = e.category; source = e.source; event_id = e.event_id }

-- No later element belongs to the stream of an earlier one.
abbrev pub OnePerStream {ℓ} : {A : Type ℓ} → (A → Stream) → List A → Type 0
OnePerStream stream [] = Unit
OnePerStream stream (x ∷ xs) =
    (any (λ y. stream_eq (stream x) (stream y)) xs ≡ false) × OnePerStream stream xs

module _ {ℓ} {A : Type ℓ} (stream : A → Stream) where
  OnePerStream-append_last :
      (xs : List A) (x : A)
      → OnePerStream stream xs
      → any (λ y. stream_eq (stream y) (stream x)) xs ≡ false
      → OnePerStream stream (xs ++ x ∷ [])
  unfolding any
  OnePerStream-append_last [] x u h = (refl, tt)
  OnePerStream-append_last (y ∷ xs) x u h = (
    ground (arith, u.0, any-append (λ z. stream_eq (stream y) (stream z)) xs (x ∷ [])),
    OnePerStream-append_last xs x u.1 (ground arith),
  )

  OnePerStream-tail : (xs : List A) → OnePerStream stream xs → OnePerStream stream (tail xs)
  OnePerStream-tail [] u = tt
  OnePerStream-tail (x ∷ xs) u = u.1

  any-tail : (q : A → Bool) (xs : List A) → any q xs ≡ false → any q (tail xs) ≡ false
  unfolding any
  any-tail q [] h = refl
  any-tail q (x ∷ xs) h = ground arith

  -- A change that keeps every stream keeps them distinct.
  OnePerStream-modify_first :
      (test : A → Bool) (f : A → A) (xs : List A)
      → ((y : A) → test y ≡ true → stream (f y) ≡ stream y)
      → OnePerStream stream xs
      → OnePerStream stream (modify_first test f xs)
  unfolding modify_first
  OnePerStream-modify_first test f [] k u = tt
  OnePerStream-modify_first test f (x ∷ xs) k u = elim (Bool-cases (test x)) [
    | inl hit ↦ rw hit (rw (k x hit) u)
    | inr miss ↦ rw miss (
      any-modify_first test f (λ y. stream_eq (stream x) (stream y)) xs
            (λ y h. ap (stream_eq (stream x)) (k y h))
          ∙ u.0,
      OnePerStream-modify_first test f xs k u.1,
    )
  ]

stream_eq-eq : (s t : Stream) → stream_eq s t ≡ true → s ≡ t
unfolding stream_eq
stream_eq-eq s t h = ground (
  arith,
  category_eq_iff s.category t.category,
  text_eq_iff s.source t.source,
  text_eq_iff s.event_id t.event_id,
)

module _ (p : Platform) where
  pub push_watermark-OnePerStream :
      (ws : List IncidentStreamWatermark) (e : DisasterEvent)
      → OnePerStream watermark_stream ws
      → OnePerStream watermark_stream (push_watermark p ws e)
  unfolding push_watermark commit advance remember_update from_event
  push_watermark-OnePerStream ws e u = elim (Bool-cases (any (λ w. matches w e) ws)) [
    | inl old ↦ rw old (
        OnePerStream-modify_first watermark_stream (λ w. matches w e) (λ w. commit p w e) ws
          (λ w h. refl) u)
    | inr new ↦ rw new (
        OnePerStream-append_last watermark_stream ws (from_event p e) u
          (unfold stream_eq matches in new))
  ]

same_stream-stream_eq :
    (e y : DisasterEvent) → same_stream e y ≡ stream_eq (event_stream y) (event_stream e)
unfolding same_stream stream_eq
same_stream-stream_eq e y = ground arith

push_bounded-OnePerStream :
    (limit : ℕ) (latest : List DisasterEvent) (e : DisasterEvent)
    → OnePerStream event_stream latest
    → any (λ y. stream_eq (event_stream y) (event_stream e)) latest ≡ false
    → OnePerStream event_stream (push_bounded limit latest e)
unfolding push_bounded
push_bounded-OnePerStream limit latest e u h = elim (Bool-cases (leb limit (length latest))) [
  | inl full ↦ rw full (
      OnePerStream-append_last event_stream (tail latest) e
        (OnePerStream-tail event_stream latest u) (any-tail event_stream _ latest h))
  | inr room ↦ rw room (OnePerStream-append_last event_stream latest e u h)
]

pub push_latest-OnePerStream :
    (latest : List DisasterEvent) (e : DisasterEvent)
    → OnePerStream event_stream latest
    → OnePerStream event_stream (push_latest latest e)
unfolding push_latest
push_latest-OnePerStream latest e u = elim (Bool-cases (any (same_stream e) latest)) [
  | inl old ↦ rw old (
      OnePerStream-modify_first event_stream (same_stream e) (λ _. e) latest
        (λ y h.
          sym
            (stream_eq-eq (event_stream y) (event_stream e) (sym (same_stream-stream_eq e y) ∙ h)))
        u)
  | inr new ↦ rw new (
      push_bounded-OnePerStream max_latest_sources latest e u
        (rw (fun_ext (same_stream-stream_eq e)) at new))
]
