-- ===== src/StockAnalyzer/Tab/Pending.antt =====
-- How many answers the tab waits for: the loading sign is shown as long as the last selection of
-- this mounting is unanswered, and no longer.
use finance_buddy.Prelude.{
  All, All-mono, Bool, Bool-cases, List, [], arith, false, filter, inl, inr, length, nat_eq,
  nat_eq_iff, refl, true, ℕ, ◌&&◌, ◌++◌, ◌+◌, ◌∷◌, ◌≡◌, ◌≤◌, Option, Text, is_empty, none, some,
  subst, sym, trim, ◌||◌,
}
use finance_buddy.StockAnalyzer.{SearchResult, Stock, AnalyzerState, clear}
use finance_buddy.StockAnalyzer.Tab.{
  Analysis, AnalyzerTab, Reply, mounted_over, remount, handle_select, follow_link, symbol_is,
}
use finance_buddy.StockAnalyzer.Tab.Steps.{
  Clears, empties, Waits, Arrives, Step, Reach, analysis_came, waits, first, arrives, selecting,
  linking, remounting,
}
use finance_buddy.StockAnalyzer.Tab.View.{
  View, view, answered, selected, request, is_heeded, Clears-view, Waits-view,
  analysis_answered-view,
}

abbrev pub is_last : View → Analysis → Bool
is_last v r = nat_eq r.mount v.mount && nat_eq r.seq (v.analysis_seq v.mount)

abbrev pub pending : View → ℕ
pending v = length (filter (is_last v) v.analyses)

abbrev pub bit : Bool → ℕ
bit true = 1
bit false = 0

abbrev pub IsEarlier : View → Analysis → Type 0
IsEarlier v r = (r.mount ≤ v.mount) × (r.mount ≡ v.mount → r.seq ≤ v.analysis_seq v.mount)

-- Every request was made by this mounting or an earlier one, with a number that was given, and as
-- many await the last number as the loading sign says.
pub record IsCounted (v : View) : Type 0 where
  pub earlier : All (IsEarlier v) v.analyses
  pub counted : pending v ≡ bit v.loading

pub length-filter_around :
    {A : Type 0} (p : A → Bool) (before : List A) (r : A) (after : List A)
    → length (filter p (before ++ (r ∷ after))) ≡ bit (p r) + length (filter p (before ++ after))
length-filter_around p [] r after = ground arith
length-filter_around p (x ∷ before) r after = ground (arith, length-filter_around p before r after)

length-filter_none :
    {A : Type 0} (p : A → Bool) (xs : List A) → All (λ x. p x ≡ false) xs → length (filter p xs) ≡ 0
length-filter_none p [] h = refl
length-filter_none p (x ∷ xs) h = ground (arith, length-filter_none p xs h.1)

All-around :
    {A : Type 0} (P : A → Type 0) (before : List A) (r : A) (after : List A)
    → All P (before ++ (r ∷ after))
    → All P (before ++ after)
All-around P [] r after h = h.1
All-around P (x ∷ before) r after h = (h.0, All-around P before r after h.1)

numbered_next :
    (r : Analysis) (v : View) (x : Analysis) → IsEarlier v x → IsEarlier (selected r v) x
numbered_next r v x h = (h.0, λ e. ground (arith, h.1 e))

pub not_last_next :
    (r : Analysis) (v : View) (x : Analysis) → IsEarlier v x → is_last (selected r v) x ≡ false
not_last_next r v x h = elim (Bool-cases (nat_eq x.mount v.mount)) [
  | inl k ↦ ground (arith, h.1 ((nat_eq_iff x.mount v.mount).0 k))
  | inr k ↦ ground arith
]

pub IsCounted-selected :
    (t : AnalyzerTab) (s : SearchResult)
    → IsCounted (view t)
    → IsCounted (selected (request t s) (view t))
IsCounted-selected t s c = record {
  earlier = (
    (omega arith, λ e. ground arith),
    All-mono (IsEarlier (view t)) (IsEarlier (selected (request t s) (view t))) t.analyses
        (numbered_next (request t s) (view t)) c.earlier,
  );
  counted = ground (
    arith,
    length-filter_none (is_last (selected (request t s) (view t))) t.analyses (
        All-mono (IsEarlier (view t)) _ t.analyses (not_last_next (request t s) (view t))
          c.earlier),
  );
}

pub is_last_iff_heeded :
    (v : View) (r : Analysis) → is_last v r ≡ (is_heeded v r && nat_eq r.mount v.mount)
is_last_iff_heeded v r = elim (Bool-cases (nat_eq r.mount v.mount)) [
  | inl k ↦ rw ((nat_eq_iff r.mount v.mount).0 k) ground arith
  | inr k ↦ ground arith
]

pub IsCounted-answered :
    (v : View) (before after : List Analysis) (r : Analysis) (reply : Reply)
    → v.analyses ≡ before ++ (r ∷ after)
    → IsCounted v
    → IsCounted (answered r reply (record v { analyses = before ++ after }))
IsCounted-answered v before after r reply e c = record {
  earlier = All-around (IsEarlier v) before r after (rw (← e) c.earlier);
  counted =
      let counted : length (filter (is_last v) (before ++ (r ∷ after))) ≡ bit v.loading =
        rw (← e) c.counted in
      ground
        (arith, is_last_iff_heeded v r, length-filter_around (is_last v) before r after, counted);
}

IsCounted-mounted_over :
    (store : AnalyzerState) (s : Option Text) → IsCounted (view (mounted_over store s))
unfolding mounted_over
IsCounted-mounted_over store s = record { earlier = tt; counted = refl }

not_last_after_remount :
    (t : AnalyzerTab) (x : Analysis) → IsEarlier (view t) x → is_last (view (remount t)) x ≡ false
unfolding remount
not_last_after_remount t x h = ground (arith, h.0)

IsEarlier-remount :
    (t : AnalyzerTab) (x : Analysis) → IsEarlier (view t) x → IsEarlier (view (remount t)) x
unfolding remount
IsEarlier-remount t x h = (omega (arith, h.0), λ e. ground (arith, h.0))

pub IsCounted-remount : (t : AnalyzerTab) → IsCounted (view t) → IsCounted (view (remount t))
unfolding remount
IsCounted-remount t c = record {
  earlier = All-mono (IsEarlier (view t)) _ t.analyses (IsEarlier-remount t) c.earlier;
  counted =
      length-filter_none _ t.analyses
        (All-mono (IsEarlier (view t)) _ t.analyses (not_last_after_remount t) c.earlier);
}

IsCounted-select :
    (v : Option SearchResult) (t : AnalyzerTab)
    → IsCounted (view t)
    → IsCounted (view (handle_select v t))
unfolding handle_select clear
IsCounted-select none t c = record { earlier = c.earlier; counted = c.counted }
IsCounted-select (some v) t c = IsCounted-selected t v c

module _ (upper : Text → Text) (is_positive : Text → Bool) (IsAbout : Text → Stock → Type 0) where
  IsCounted-link :
      (parameter : Text) (t : AnalyzerTab)
      → IsCounted (view t)
      → IsCounted (view (follow_link upper parameter t))
  unfolding follow_link
  IsCounted-link parameter t c =
      let s = trim (upper parameter) in
      elim (Bool-cases (is_empty s || symbol_is upper s t.store.stock)) [
        | inl k ↦ rw k c
        | inr k ↦ rw k (IsCounted-select (some (record { symbol = s; name = s })) t c)
      ]

  pub IsCounted-Waits :
      {t u : AnalyzerTab}
      → Waits upper is_positive IsAbout t u
      → IsCounted (view t)
      → IsCounted (view u)
  IsCounted-Waits w c = subst IsCounted (sym (Waits-view upper is_positive IsAbout w)) c

  pub IsCounted-Clears :
      {t u : AnalyzerTab}
      → Clears upper is_positive IsAbout t u
      → IsCounted (view t)
      → IsCounted (view u)
  IsCounted-Clears w c =
      subst IsCounted (sym (Clears-view upper is_positive IsAbout w))
        (record { earlier = c.earlier; counted = c.counted })

  pub IsCounted-Arrives :
      {t u : AnalyzerTab}
      → Arrives upper is_positive IsAbout t u
      → IsCounted (view t)
      → IsCounted (view u)
  IsCounted-Arrives {t} (analysis_came before after r reply e a) c =
      subst IsCounted
        (sym (analysis_answered-view is_positive r reply (record t { analyses = before ++ after })))
        (IsCounted-answered (view t) before after r reply e c)

  IsCounted-Step :
      {t u : AnalyzerTab}
      → Step upper is_positive IsAbout t u
      → IsCounted (view t)
      → IsCounted (view u)
  IsCounted-Step (waits w) c = IsCounted-Waits w c
  IsCounted-Step (empties w) c = IsCounted-Clears w c
  IsCounted-Step (arrives w) c = IsCounted-Arrives w c
  IsCounted-Step {t} (selecting v) c = IsCounted-select v t c
  IsCounted-Step {t} (linking parameter) c = IsCounted-link parameter t c
  IsCounted-Step {t} remounting c = IsCounted-remount t c

  pub Reach-IsCounted : {t : AnalyzerTab} → Reach upper is_positive IsAbout t → IsCounted (view t)
  Reach-IsCounted (first store s) = IsCounted-mounted_over store s
  Reach-IsCounted (Reach.after r s) = IsCounted-Step s (Reach-IsCounted r)
