-- ===== src/StockAnalyzer/Tab/Stale.antt =====
-- The answers that still come after the user has gone on: the number of the last request does not
-- change when the selection is cleared, and it is counted anew by each mounting of the tab.
use finance_buddy.Prelude.{
  Bool, Text, none, some, true, ◌≡◌, ◌≤◌, Option, ap, arith, refl, ℕ, ◌∙◌, false, nat_eq, suc,
}
use finance_buddy.StockAnalyzer.{Stock, clear, SearchResult}
use finance_buddy.StockAnalyzer.Tab.{
  AnalyzerTab, handle_impact, analysis_answered, Analysis, handle_select, Reply, remount, failed,
  analysed,
}
use finance_buddy.StockAnalyzer.Tab.View.{is_heeded, view, analysis_answered-view}

module _ (is_positive : Text → Bool) where
  handle_impact-selected :
      (m : ℕ) (s : Option Text) (symbol amount : Text) (t : AnalyzerTab)
      → (handle_impact is_positive m s symbol amount t).store.selected_stock
        ≡ t.store.selected_stock
  unfolding handle_impact
  handle_impact-selected m s symbol amount t = ground arith

  analysis_answered-selected :
      (r : Analysis) (reply : Reply) (t : AnalyzerTab)
      → (analysis_answered is_positive r reply t).store.selected_stock ≡ t.store.selected_stock
  unfolding analysis_answered
  analysis_answered-selected r (failed status) t = ground arith
  analysis_answered-selected r (analysed stock) t = ground (
    arith,
    handle_impact-selected r.mount r.session stock.symbol r.amount
        (record t { store = record t.store { stock = some stock } }),
  )

  -- An answer that is heeded is shown.
  heeded_is_shown :
      (t : AnalyzerTab) (r : Analysis) (s : Stock)
      → is_heeded (view t) r ≡ true
      → (analysis_answered is_positive r (analysed s) t).store.stock ≡ some s
  heeded_is_shown t r s h =
      ap (λ v. v.stock) (analysis_answered-view is_positive r (analysed s) t) ∙ (rw h refl)

  -- A selection is cleared while its analysis is under way: the answer fills the tab again, with
  -- no stock selected.
  pub cleared_tab_is_filled :
      (t : AnalyzerTab) (r : Analysis) (s : Stock)
      → is_heeded (view t) r ≡ true
      → let u = analysis_answered is_positive r (analysed s) (handle_select none t) in
        (u.store.selected_stock ≡ none) × (u.store.stock ≡ some s)
  unfolding handle_select clear
  cleared_tab_is_filled t r s h = (
    analysis_answered-selected r (analysed s) (handle_select none t),
    heeded_is_shown (handle_select none t) r s h,
  )

  -- The tab is left while an analysis is under way, and on return another stock is selected and
  -- answered: the earlier answer, if it comes last, replaces the stock that was selected last.
  pub earlier_mounting_overwrites :
      (t : AnalyzerTab) (r q : Analysis) (v : SearchResult) (s s' : Stock)
      → r.mount ≤ t.mount
      → is_heeded (view t) r ≡ true
      → let u =
          analysis_answered is_positive q (analysed s') (handle_select (some v) (remount t)) in
        let u' = analysis_answered is_positive r (analysed s) u in
        (u'.store.selected_stock ≡ some v) × (u'.store.stock ≡ some s)
  unfolding handle_select remount
  earlier_mounting_overwrites t r q v s s' m h =
      let w = handle_select (some v) (remount t) in
      let u = analysis_answered is_positive q (analysed s') w in
      let same : u.analysis_seq ≡ w.analysis_seq =
        ap (λ x. x.analysis_seq) (analysis_answered-view is_positive q (analysed s') w) in
      let n : nat_eq r.mount (suc t.mount) ≡ false = ground (arith, m) in
      (
        analysis_answered-selected r (analysed s) u ∙ analysis_answered-selected q (analysed s') w,
        heeded_is_shown u r s (rw same (rw n h)),
      )
