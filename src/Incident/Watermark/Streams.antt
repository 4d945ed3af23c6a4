-- ===== src/Incident/Watermark/Streams.antt =====
-- What any sequence of reports leaves of a stream's watermark.
use disaster_alert.Prelude.{
  ℕ, ◌≤◌, ◌≡◌, Bool, true, ◌||◌, List, [], ◌∷◌, ◌⊎◌, inl, inr, refl, leb, if◌then◌else◌, any, arith,
  ◌∙◌, ap,
}
use disaster_alert.Event.{DisasterEvent}
use disaster_alert.Event.Digest.{Platform}
use disaster_alert.Incident.{is_applied}
use disaster_alert.Incident.Watermark.{IncidentStreamWatermark, outcome, commit}
use disaster_alert.Incident.Watermark.Monotone.{commit-Committed}

abbrev pub is_closed : IncidentStreamWatermark → Bool
is_closed w = w.final_report || w.cancel

abbrev pub closes : DisasterEvent → Bool
closes e = e.final_report || e.cancel

-- The greatest of a number and of the numbers of reports.
abbrev pub greatest : ℕ → List DisasterEvent → ℕ
greatest n [] = n
greatest n (e ∷ es) = greatest (if leb n e.report_num then e.report_num else n) es

module _ (p : Platform) where
  -- A report is committed if it is applied, as `apply_outcome` does with the watermark of its stream.
  abbrev pub receive : IncidentStreamWatermark → DisasterEvent → IncidentStreamWatermark
  receive w e = if is_applied (outcome p w e) then commit p w e else w

  abbrev pub receive_all : IncidentStreamWatermark → List DisasterEvent → IncidentStreamWatermark
  receive_all w [] = w
  receive_all w (e ∷ es) = receive_all (receive w e) es

  receive-cancel :
      (w : IncidentStreamWatermark) (e : DisasterEvent)
      → (receive w e).cancel ≡ (w.cancel || e.cancel)
  unfolding outcome
  receive-cancel w e = ground (arith, commit-Committed p w e)

  receive-is_closed :
      (w : IncidentStreamWatermark) (e : DisasterEvent)
      → is_closed (receive w e) ≡ (is_closed w || closes e)
  unfolding outcome
  receive-is_closed w e = ground (arith, commit-Committed p w e)

  receive-report_num :
      (w : IncidentStreamWatermark) (e : DisasterEvent)
      → (w.report_num ≤ (receive w e).report_num)
        × ((is_closed (receive w e) ≡ true)
            ⊎ ((receive w e).report_num
                ≡ (if leb w.report_num e.report_num then e.report_num else w.report_num)))
  unfolding outcome
  receive-report_num w e = ground (arith, commit-Committed p w e)

  -- Whatever reports a stream's watermark receives, each committed if it is applied: the stream is
  -- cancelled exactly if it was or one of them cancels, it is closed (final or cancelled) exactly if
  -- it was or one of them closes it, its number never falls, and unless it is closed its number is
  -- the greatest of its own and of theirs.
  pub receive_all_summary :
      (w : IncidentStreamWatermark) (es : List DisasterEvent)
      → let w' = receive_all w es in
        (w'.cancel ≡ (w.cancel || any (λ (e : DisasterEvent). e.cancel) es))
        × (is_closed w' ≡ (is_closed w || any closes es))
        × (w.report_num ≤ w'.report_num)
        × ((is_closed w' ≡ true) ⊎ (w'.report_num ≡ greatest w.report_num es))
  unfolding any
  receive_all_summary w [] = (ground arith, ground arith, omega arith, inr refl)
  receive_all_summary w (e ∷ es) =
      let (cancelled, closed, raised, number) = receive_all_summary (receive w e) es in
      let (raised1, number1) = receive-report_num w e in
      (
        ground (arith, cancelled, receive-cancel w e),
        ground (arith, closed, receive-is_closed w e),
        ground (arith, raised, raised1),
        elim number [
          | inl shut ↦ inl shut
          | inr same ↦ elim number1 [
            | inl shut1 ↦ inl (closed ∙ ap (λ b. b || any closes es) shut1)
            | inr same1 ↦ inr (same ∙ ap (λ n. greatest n es) same1)
          ]
        ],
      )
