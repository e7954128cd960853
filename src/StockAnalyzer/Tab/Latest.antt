-- ===== src/StockAnalyzer/Tab/Latest.antt =====
-- Which stock the tab shows: the one that was selected last.
use finance_buddy.Prelude.{
  In, Option, Text, false, some, true, ◌≡◌, arith, inl, inr, refl, All, All-In, Bool, ap, subst,
  sym, ℕ, ◌++◌, ◌∷◌, ◌||◌, ◌≤◌,
}
use finance_buddy.StockAnalyzer.{Stock, SearchResult}
use finance_buddy.StockAnalyzer.Tab.{Analysis, AnalyzerTab, handle_select, remount}
use finance_buddy.StockAnalyzer.Tab.Pending.{
  IsCounted, Reach-IsCounted, not_last_next, IsCounted-selected, IsCounted-answered,
}
use finance_buddy.StockAnalyzer.Tab.Served.{IsFor, Shows, IsServing, In-around, serves_answered}
use finance_buddy.StockAnalyzer.Tab.Steps.{
  Clears, emptying, leaving, Arrives, Run, Reach, analysis_came, waiting, arriving, done,
}
use finance_buddy.StockAnalyzer.Tab.View.{
  View, cleared, Clears-view, view, selected, Waits-view, request, analysis_answered-view,
}

module _ (upper : Text → Text) (is_positive : Text → Bool) (IsAbout : Text → Stock → Type 0)
    (symbol : Text) (old : Option Stock) where
  IsServing-Arrives :
      {c : Bool} {t u : AnalyzerTab}
      → Arrives upper is_positive IsAbout t u
      → IsServing IsAbout symbol old c (view t)
      → IsServing IsAbout symbol old c (view u)
  IsServing-Arrives {c} {t} {u} (analysis_came before after r reply e a) s =
      subst (IsServing IsAbout symbol old c)
        (sym (analysis_answered-view is_positive r reply (record t { analyses = before ++ after })))
        (record {
          requests = λ x h. s.requests x (rw e (In-around IsAbout symbol old c x r before after h));
          counts = IsCounted-answered (view t) before after r reply e s.counts;
          outcome = serves_answered IsAbout symbol old c (view t) before after r reply e a s;
        })

  Shows-cleared :
      {c : Bool} (v : View)
      → Shows IsAbout symbol old c v
      → Shows IsAbout symbol old true (cleared v)
  Shows-cleared v (inl o) = inl (o.0, inr (refl, refl), refl)
  Shows-cleared v (inr o) = inr (o.0, inr (inr (refl, refl, refl)))

  IsServing-Clears :
      {c : Bool} {t u : AnalyzerTab}
      → Clears upper is_positive IsAbout t u
      → IsServing IsAbout symbol old c (view t)
      → IsServing IsAbout symbol old true (view u)
  IsServing-Clears {c} {t} w s =
      subst (IsServing IsAbout symbol old true) (sym (Clears-view upper is_positive IsAbout w))
        (record {
          requests = s.requests;
          counts = record { earlier = s.counts.earlier; counted = s.counts.counted };
          outcome = Shows-cleared (view t) s.outcome;
        })

  -- Leaving the tab raises the number of its mounting for good.
  Run-mount :
      {c : Bool} {n : ℕ} {t u : AnalyzerTab}
      → Run upper is_positive IsAbout c n t u
      → t.mount ≤ u.mount
  unfolding remount
  Run-mount done = omega arith
  Run-mount (waiting w r) =
      omega (arith, Run-mount r, ap (λ v. v.mount) (Waits-view upper is_positive IsAbout w))
  Run-mount (emptying w r) =
      omega (arith, Run-mount r, ap (λ v. v.mount) (Clears-view upper is_positive IsAbout w))
  Run-mount (leaving r) = omega (arith, Run-mount r)
  Run-mount {c} {n} {t} (arriving (analysis_came before after q reply e a) r) =
      let same =
        ap (λ v. v.mount)
          (analysis_answered-view is_positive q reply (record t { analyses = before ++ after })) in
      omega (arith, Run-mount r, same)

  IsServing-Run :
      {b c : Bool} {n : ℕ} {t u : AnalyzerTab}
      → Run upper is_positive IsAbout c n t u
      → u.mount ≤ t.mount
      → IsServing IsAbout symbol old b (view t)
      → IsServing IsAbout symbol old (b || c) (view u)
  unfolding remount
  IsServing-Run {b} {c} {n} {t} {u} done m s =
      subst (λ d. IsServing IsAbout symbol old d (view u)) (ground arith) s
  IsServing-Run {b} (waiting w r) m s =
      let same = Waits-view upper is_positive IsAbout w in
      IsServing-Run r (omega (arith, m, ap (λ v. v.mount) same))
        (subst (IsServing IsAbout symbol old b) (sym same) s)
  IsServing-Run {b} {c} {n} {t} {u} (emptying w r) m s =
      let same = ap (λ v. v.mount) (Clears-view upper is_positive IsAbout w) in
      subst (λ d. IsServing IsAbout symbol old d (view u)) (ground arith)
        (IsServing-Run {b = true} r (omega (arith, m, same)) (IsServing-Clears w s))
  IsServing-Run (leaving r) m s = absurd (omega (arith, m, Run-mount r))
  IsServing-Run {b} {c} {n} {t} (arriving (analysis_came before after q reply e a) r) m s =
      let same =
        ap (λ v. v.mount)
          (analysis_answered-view is_positive q reply (record t { analyses = before ++ after })) in
      IsServing-Run r (omega (arith, m, same))
        (IsServing-Arrives (analysis_came before after q reply e a) s)

IsServing-selected :
    (IsAbout : Text → Stock → Type 0) (s : SearchResult) (t : AnalyzerTab)
    → IsCounted (view t)
    → All (λ r. r.mount ≡ t.mount) t.analyses
    → IsServing IsAbout s.symbol t.store.stock false (selected (request t s) (view t))
IsServing-selected IsAbout s t c m = record {
  requests = requests;
  counts = IsCounted-selected t s c;
  outcome = inl (refl, inl refl, refl);
}
  where
    requests :
        (r : Analysis)
        → In r (request t s ∷ t.analyses)
        → IsFor s.symbol (selected (request t s) (view t)) r
    requests r (inl e) = (ap (λ x. x.mount) e, λ _. ap (λ x. x.symbol) e)
    requests r (inr h) = (
      All-In _ r t.analyses m h,
      λ l.
          ground
            (arith, not_last_next (request t s) (view t) r (All-In _ r t.analyses c.earlier h)),
    )

-- Last request wins: after a stock is selected, whatever answers come in whichever order, and
-- whatever else happens in this mounting of the tab but another selection, the tab is still loading
-- over the stock it showed, or it shows a stock that the server gave for the selected symbol and no
-- error, or an error over the stock it showed; only if the stock is cleared in the meantime, no
-- stock may stand in place of the one it showed, and the tab may show neither stock nor error. No
-- analysis is under way for an earlier mounting of the tab when the stock is selected.
pub last_selection_is_shown :
    (upper : Text → Text) (is_positive : Text → Bool) (IsAbout : Text → Stock → Type 0) {c : Bool}
    {n : ℕ} {t u : AnalyzerTab} (s : SearchResult)
    → Reach upper is_positive IsAbout t
    → All (λ r. r.mount ≡ t.mount) t.analyses
    → Run upper is_positive IsAbout c n (handle_select (some s) t) u
    → u.mount ≡ t.mount
    → Shows IsAbout s.symbol t.store.stock c (view u)
unfolding handle_select
last_selection_is_shown upper is_positive IsAbout {c} {n} {t} {u} s h m r same =
    (IsServing-Run upper is_positive IsAbout s.symbol t.store.stock r (omega (arith, same))
      (IsServing-selected IsAbout s t (Reach-IsCounted upper is_positive IsAbout h) m)).outcome
