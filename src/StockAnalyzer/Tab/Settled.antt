-- ===== src/StockAnalyzer/Tab/Settled.antt =====
-- When no answer is left to come: the loading sign is gone.
use finance_buddy.Prelude.{
  Bool, Text, [], ap, arith, false, filter, length, length-append, subst, sym, ℕ, ◌++◌, ◌+◌, ◌∙◌,
  ◌∷◌, ◌≡◌, empty_of_length,
}
use finance_buddy.StockAnalyzer.{Stock}
use finance_buddy.StockAnalyzer.Tab.{AnalyzerTab, remount}
use finance_buddy.StockAnalyzer.Tab.Pending.{
  IsCounted, is_last, bit, IsCounted-Waits, Reach-IsCounted, IsCounted-Arrives, IsCounted-Clears,
  IsCounted-remount,
}
use finance_buddy.StockAnalyzer.Tab.Steps.{
  emptying, leaving, Run, Reach, waiting, arriving, analysis_came, done,
}
use finance_buddy.StockAnalyzer.Tab.View.{
  View, view, Waits-view, analysis_answered-view, Clears-view,
}

nothing_loads :
    (v : View) → length v.analyses ≡ 0 → IsCounted v → (v.analyses ≡ []) × (v.loading ≡ false)
nothing_loads v e c =
    let gone = empty_of_length v.analyses e in
    let left = subst (λ xs. length (filter (is_last v) xs) ≡ bit v.loading) gone c.counted in
    (gone, ground (arith, left))

module _ (upper : Text → Text) (is_positive : Text → Bool) (IsAbout : Text → Stock → Type 0) where
  -- A run answers as many analyses as it says, and asks for none.
  Run-length :
      {c : Bool} {n : ℕ} {t u : AnalyzerTab}
      → Run upper is_positive IsAbout c n t u
      → length t.analyses ≡ n + length u.analyses
  unfolding remount
  Run-length done = omega arith
  Run-length (waiting w r) =
      ap (λ v. length v.analyses) (sym (Waits-view upper is_positive IsAbout w)) ∙ Run-length r
  Run-length (emptying w r) =
      ap (λ v. length v.analyses) (sym (Clears-view upper is_positive IsAbout w)) ∙ Run-length r
  Run-length (leaving r) = Run-length r
  Run-length {c} {n} {t} (arriving (analysis_came before after q reply e a) r) =
      let kept =
        ap (λ v. length v.analyses)
          (analysis_answered-view is_positive q reply (record t { analyses = before ++ after })) in
      omega (
        arith,
        Run-length r,
        kept,
        ap length e,
        length-append before (q ∷ after),
        length-append before after,
      )

  Run-IsCounted :
      {c : Bool} {n : ℕ} {t u : AnalyzerTab}
      → Run upper is_positive IsAbout c n t u
      → IsCounted (view t)
      → IsCounted (view u)
  Run-IsCounted done c = c
  Run-IsCounted (waiting w r) c = Run-IsCounted r (IsCounted-Waits upper is_positive IsAbout w c)
  Run-IsCounted (emptying w r) c = Run-IsCounted r (IsCounted-Clears upper is_positive IsAbout w c)
  Run-IsCounted {t = t} (leaving r) c = Run-IsCounted r (IsCounted-remount t c)
  Run-IsCounted (arriving w r) c = Run-IsCounted r (IsCounted-Arrives upper is_positive IsAbout w c)

-- From every state that can be reached, once as many analyses are answered as are under way, in
-- whichever order, whatever the answers and whatever else happens but a selection, with clearing
-- the stock and leaving the tab and coming back among it, no analysis is under way and the loading
-- sign is gone.
pub loading_ends :
    (upper : Text → Text) (is_positive : Text → Bool) (IsAbout : Text → Stock → Type 0) {c : Bool}
    {t u : AnalyzerTab}
    → Reach upper is_positive IsAbout t
    → Run upper is_positive IsAbout c (length t.analyses) t u
    → (u.analyses ≡ []) × (u.loading_analysis ≡ false)
loading_ends upper is_positive IsAbout {c} {t} {u} h r =
    nothing_loads (view u) (omega (arith, Run-length upper is_positive IsAbout r))
      (Run-IsCounted upper is_positive IsAbout r (Reach-IsCounted upper is_positive IsAbout h))
