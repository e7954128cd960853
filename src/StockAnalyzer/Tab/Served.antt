-- ===== src/StockAnalyzer/Tab/Served.antt =====
-- What comes of a selection in the stock analyzer's tab: what is shown until its answer, what its
-- answer does, and that earlier answers do nothing.
use finance_buddy.Prelude.{
  In, List, Option, Text, false, is_none, none, some, true, ◌≡◌, ◌⊎◌, arith, inl, inr, nat_eq,
  nat_eq_iff, refl, Bool, Bool-cases, In-append_inv, In-append_left, In-append_right, filter,
  length, subst, ◌++◌, ◌∷◌,
}
use finance_buddy.StockAnalyzer.{Stock}
use finance_buddy.StockAnalyzer.Tab.{Analysis, Reply, analysed, failed}
use finance_buddy.StockAnalyzer.Tab.Pending.{
  is_last, IsCounted, is_last_iff_heeded, bit, length-filter_around,
}
use finance_buddy.StockAnalyzer.Tab.Steps.{Answers}
use finance_buddy.StockAnalyzer.Tab.View.{View, answered, is_heeded}

-- The stock of before, or none if the stock has been cleared since.
abbrev pub Kept : Bool → Option Stock → Option Stock → Type 0
Kept c old stock = (stock ≡ old) ⊎ ((c ≡ true) × (stock ≡ none))

-- What has come of a selection of `symbol` over the stock `old`, where `c` says whether the stock
-- has been cleared since: nothing so far, and no error; a stock that the server gave for the symbol
-- and no error; an error over the old stock; or, after a clearing, nothing at all.
abbrev pub Shows : (Text → Stock → Type 0) → Text → Option Stock → Bool → View → Type 0
Shows IsAbout symbol old c v =
    ((v.loading ≡ true) × Kept c old v.stock × (v.error ≡ none))
    ⊎ ((v.loading ≡ false)
        × (((s : Stock) × IsAbout symbol s × (v.stock ≡ some s) × (v.error ≡ none))
            ⊎ ((Kept c old v.stock × (is_none v.error ≡ false))
                ⊎ ((c ≡ true) × (v.stock ≡ none) × (v.error ≡ none)))))

-- All requests are of this mounting, and the last was made for `symbol`.
abbrev pub IsFor : Text → View → Analysis → Type 0
IsFor symbol v r = (r.mount ≡ v.mount) × (is_last v r ≡ true → r.symbol ≡ symbol)

pub record IsServing (IsAbout : Text → Stock → Type 0) (symbol : Text) (old : Option Stock)
    (c : Bool) (v : View) : Type 0 where
  pub requests : (r : Analysis) → In r v.analyses → IsFor symbol v r
  pub counts : IsCounted v
  pub outcome : Shows IsAbout symbol old c v

module _ (IsAbout : Text → Stock → Type 0) (symbol : Text) (old : Option Stock) (c : Bool) where
  -- An answer to an earlier request changes nothing.
  ignored :
      (v : View) (r : Analysis) (reply : Reply) (rest : List Analysis)
      → r.mount ≡ v.mount
      → is_last v r ≡ false
      → Shows IsAbout symbol old c v
      → Shows IsAbout symbol old c (answered r reply (record v { analyses = rest }))
  ignored v r reply rest m l o =
      let h : is_heeded v r ≡ false =
        ground (arith, is_last_iff_heeded v r, (nat_eq_iff r.mount v.mount).1 m) in
      rw h ground arith

  unanswered :
      (v : View)
      → v.loading ≡ true
      → Shows IsAbout symbol old c v
      → Kept c old v.stock × (v.error ≡ none)
  unanswered v b (inl o) = (o.1, o.2)
  unanswered v b (inr o) = ground (arith, o.0)

  -- The answer to the last one settles what is shown.
  settled :
      (v : View) (r : Analysis) (reply : Reply) (rest : List Analysis)
      → r.mount ≡ v.mount
      → is_last v r ≡ true
      → v.loading ≡ true
      → Answers IsAbout symbol reply
      → Shows IsAbout symbol old c v
      → Shows IsAbout symbol old c (answered r reply (record v { analyses = rest }))
  settled v r reply rest m l b a o =
      let n = (nat_eq_iff r.mount v.mount).1 m in
      let h : is_heeded v r ≡ true = ground (arith, is_last_iff_heeded v r, n) in
      settle_reply reply h n a (unanswered v b o)
    where
      settle_reply :
          (reply : Reply)
          → is_heeded v r ≡ true
          → nat_eq r.mount v.mount ≡ true
          → Answers IsAbout symbol reply
          → Kept c old v.stock × (v.error ≡ none)
          → Shows IsAbout symbol old c (answered r reply (record v { analyses = rest }))
      settle_reply (analysed s) h n a o = rw (h, n, b) (inr (refl, inl (s, a, refl, o.1)))
      settle_reply (failed st) h n a o = rw (h, n, b) (inr (refl, inr (inl (o.0, refl))))

  -- While the last request is under way, the loading sign is shown.
  loads :
      (v : View) (before after : List Analysis) (r : Analysis)
      → v.analyses ≡ before ++ (r ∷ after)
      → IsCounted v
      → is_last v r ≡ true
      → v.loading ≡ true
  loads v before after r e n l =
      let counted = subst (λ xs. length (filter (is_last v) xs) ≡ bit v.loading) e n.counted in
      ground (arith, length-filter_around (is_last v) before r after, counted)

  pub In-around :
      (x r : Analysis) (before after : List Analysis)
      → In x (before ++ after)
      → In x (before ++ (r ∷ after))
  In-around x r before after h = elim (In-append_inv x before after h) [
    | inl m ↦ In-append_left x before (r ∷ after) m
    | inr m ↦ In-append_right x before (r ∷ after) (inr m)
  ]

  pub serves_answered :
      (v : View) (before after : List Analysis) (r : Analysis) (reply : Reply)
      → v.analyses ≡ before ++ (r ∷ after)
      → Answers IsAbout r.symbol reply
      → IsServing IsAbout symbol old c v
      → Shows IsAbout symbol old c (answered r reply (record v { analyses = before ++ after }))
  serves_answered v before after r reply e a s =
      let here : In r v.analyses = rw e (In-append_right r before (r ∷ after) (inl refl)) in
      let is_for = s.requests r here in
      elim (Bool-cases (is_last v r)) [
        | inl l ↦
            settled v r reply (before ++ after) is_for.0 l (loads v before after r e s.counts l)
              (subst (λ x. Answers IsAbout x reply) (is_for.1 l) a) s.outcome
        | inr l ↦ ignored v r reply (before ++ after) is_for.0 l s.outcome
      ]
