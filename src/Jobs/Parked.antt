-- ===== src/Jobs/Parked.antt =====
-- database_utils/utils/provisioning_jobs.py: `fail_parked`. The hint, the error text and the extra
-- fields of the entry are only shown, and are not modelled.
use models_utils.Prelude.{
  Bool, true, false, none, some, List, [], ◌∷◌, Text, codes, text_eq, if◌then◌else◌,
}
use models_utils.Runs.Rows.{failed, LogStep, LogItem, entry, junk}
use models_utils.Runs.Logs.{is_text}
use models_utils.Jobs.Finish.{JobRow, Desk, FollowOn, finish_job}

-- The stage of the failure: a guided step was never sent, a manual one may have been done.
abbrev pub stage_of : Bool → Text
stage_of true = codes "render"
stage_of false = codes "command"

abbrev pub fail_entry : Bool → Text → Text → LogStep → LogStep
fail_entry guided code display e = record e {
  status = some (codes "FAILED");
  stage = some (stage_of guided);
  code = some code;
  detail_code = some code;
  display = some display;
}

abbrev pub fail_item : Bool → Text → Text → LogItem → LogItem
fail_item guided code display junk = junk
fail_item guided code display (entry e) =
    if is_text (codes "PENDING") e.status then entry (fail_entry guided code display e) else entry e

-- `steps[-1]`, if it is pending
unfoldable pub fail_last : Bool → Text → Text → List LogItem → List LogItem
fail_last guided code display [] = []
fail_last guided code display (e ∷ []) = fail_item guided code display e ∷ []
fail_last guided code display (e ∷ f ∷ es) = e ∷ fail_last guided code display (f ∷ es)

-- `pending_kind == "guided"`
abbrev pub is_guided : JobRow → Bool
is_guided r = is_text (codes "guided") r.progress.pending_kind

unfoldable pub failed_row : Text → Text → JobRow → JobRow
unfolding fail_last
failed_row code display r = record r {
  job = record r.job {
    log = record r.job.log {
      steps = fail_last (is_guided r) code display r.job.log.steps;
      code = some code;
    };
  };
  has_log = true;
  progress = record r.progress { pending_kind = none; guided_preview = none; inflight_step = none };
}

unfoldable pub fail_parked : (FollowOn → Bool) → Text → Text → JobRow → Desk → JobRow × Desk
unfolding failed_row finish_job
fail_parked raises code display r d =
    finish_job raises failed (some code) true (failed_row code display r) d
