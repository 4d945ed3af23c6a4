-- ===== src/Incident/Watermark/Monotone.antt =====
-- How a watermark moves when it takes a report.
use disaster_alert.Prelude.{
  ◌≤◌, ◌<◌, ◌≡◌, Bool, true, not, ◌&&◌, ◌||◌, List, [], ◌∷◌, arith, refl, length, tail,
  length-append, length-tail, leb, if◌then◌else◌,
}
use disaster_alert.Text.{Text}
use disaster_alert.Event.{DisasterEvent}
use disaster_alert.Event.Digest.{Platform, event_update_id}
use disaster_alert.Incident.{max_current_report_updates, applied}
use disaster_alert.Incident.Watermark.{
  IncidentStreamWatermark, remember, remember_update, outcome, advance, commit, matches,
}

pub length-remember :
    (us : List Text) (d : Text) (oldest : Bool)
    → length us ≤ max_current_report_updates
    → length (remember us d oldest) ≤ max_current_report_updates
unfolding remember
length-remember us d oldest h =
    ground (arith, length-append us (d ∷ []), length-append (tail us) (d ∷ []), length-tail us)

module _ (p : Platform) (w : IncidentStreamWatermark) (e : DisasterEvent) where
  length-advance :
      length w.current_report_updates ≤ max_current_report_updates
      → length (advance p w e).current_report_updates ≤ max_current_report_updates
  unfolding advance
  length-advance h = ground arith

  -- A watermark never holds more than 16 update digests.
  pub length-commit :
      length w.current_report_updates ≤ max_current_report_updates
      → length (commit p w e).current_report_updates ≤ max_current_report_updates
  unfolding commit remember_update
  length-commit h =
      length-remember (advance p w e).current_report_updates (event_update_id p e) _
        (length-advance h)

  pub matches-commit : matches (commit p w e) ≡ matches w
  unfolding commit advance remember_update matches
  matches-commit = refl

  -- The fields of a watermark behind `commit`, but for the digests.
  pub record Committed (w' : IncidentStreamWatermark) : Type 0 where
    pub report_num :
        w'.report_num ≡ (if leb w.report_num e.report_num then e.report_num else w.report_num)
    pub level : w'.level ≡ (if leb w.report_num e.report_num then e.level else w.level)
    pub final_report : w'.final_report ≡ (w.final_report || e.final_report)
    pub cancel : w'.cancel ≡ (w.cancel || e.cancel)

  pub commit-Committed : Committed (commit p w e)
  unfolding commit advance remember_update
  commit-Committed = record { report_num = refl; level = refl; final_report = refl; cancel = refl }

  -- A report with a number below the watermark's is applied only if it is the first to cancel or
  -- to end the stream, and then it leaves the number and the level alone.
  pub stale_report :
      e.report_num < w.report_num
      → outcome p w e ≡ applied
      → (((e.cancel && not w.cancel) || (e.final_report && not w.final_report)) ≡ true)
        × ((commit p w e).report_num ≡ w.report_num)
        × ((commit p w e).level ≡ w.level)
  unfolding outcome
  stale_report h a = ground (arith, commit-Committed)

  -- Once a stream is cancelled, only cancelling reports are applied; once it is final, only final
  -- or cancelling ones.
  pub terminal_guard :
      outcome p w e ≡ applied
      → ((w.cancel ≡ true) → e.cancel ≡ true)
        × ((w.final_report ≡ true) → (e.final_report || e.cancel) ≡ true)
  unfolding outcome
  terminal_guard a = ground arith
