-- ===== src/Budget/Dashboard/Uploads.antt =====
-- How an upload ends.
use finance_buddy.Budget.Dashboard.{
  notice_of, reset_all_filters, upload_resume, UploadResult, total_active_filters_count,
  upload_start, Dashboard, overall,
}
use finance_buddy.Prelude.{
  Bool-cases, Option, Text, ap, false, if◌then◌else◌, inl, inr, is_none, ltb, none, not, refl, some,
  trim, ◌||◌, ◌∙◌, ◌≡◌,
}
use finance_buddy.Queries.BudgetFilters.{QueryError}
use finance_buddy.Store.{given}

notice_of-none :
    (r : UploadResult) → is_none (notice_of r) ≡ not (ltb 0 (given r.skipped 0) || r.truncated)
unfolding notice_of
notice_of-none r = elim (Bool-cases (ltb 0 (given r.skipped 0) || r.truncated)) [
  | inl k ↦ rw k refl
  | inr k ↦ rw k refl
]

notice_or_none : (n : Option Text) → (if is_none n then none else n) ≡ n
notice_or_none none = refl
notice_or_none (some t) = refl

reset_counts : (s : Dashboard) → total_active_filters_count (reset_all_filters s) ≡ 0
unfolding reset_all_filters total_active_filters_count trim
reset_counts s = refl

-- An upload that succeeds shows all statements with no filter active and no error, and has a notice
-- exactly if rows were skipped or the file was cut. One that fails tells the dialog what the dashboard
-- shows as an error, and changes nothing but that and the notice, which it takes away.
pub upload_outcome :
    (s : Dashboard) (r : UploadResult) (e : QueryError)
    → let done = (upload_resume (inr r) (upload_start s)).1 in
      let failed = upload_resume (inl e) (upload_start s) in
      (done.session_id ≡ overall)
      × (total_active_filters_count done ≡ 0)
      × (done.action_error ≡ none)
      × (is_none done.upload_notice ≡ not (ltb 0 (given r.skipped 0) || r.truncated))
      × (failed.1 ≡ record s { action_error = failed.0; upload_notice = none })
      × (is_none failed.0 ≡ false)
unfolding upload_resume upload_start reset_all_filters total_active_filters_count
upload_outcome s r e = (
  refl,
  reset_counts s,
  refl,
  ap is_none (notice_or_none (notice_of r)) ∙ notice_of-none r,
  refl,
  refl,
)
