-- ===== src/StockAnalyzer/Watchlist.antt =====
-- The watchlist.
use finance_buddy.Prelude.{
  Bool, Dict, List, Option, Text, [], any, any-append, arith, false, filter, if◌then◌else◌, lookup,
  not, some, sym, text_eq, text_eq_iff, text_eq_refl, trim, ◌++◌, ◌∷◌, ◌≡◌, ◌≢◌, lookup-insert,
  refl,
}
use finance_buddy.StockAnalyzer.{
  toggle_watchlist, toggled, watchlist_key, get_initial_watchlist, AnalyzerState,
}

any-filter_other :
    (sym t : Text) (ws : List Text)
    → any (text_eq t) (filter (λ x. not (text_eq x sym)) ws)
      ≡ (if text_eq sym t then false else any (text_eq t) ws)
any-filter_other sym t [] = ground arith
any-filter_other sym t (x ∷ ws) =
    ground (arith, text_eq_iff x sym, text_eq_iff t x, text_eq_iff sym t, any-filter_other sym t ws)

any-toggled :
    (sym t : Text) (ws : List Text)
    → any (text_eq t) (toggled sym ws)
      ≡ (if text_eq sym t then not (any (text_eq t) ws) else any (text_eq t) ws)
unfolding toggled
any-toggled sym t ws = ground (
  arith,
  any-append (text_eq t) ws (sym ∷ []),
  any-filter_other sym t ws,
  text_eq_iff sym t,
  text_eq_iff t sym,
)

filter-absent :
    (sym : Text) (ws : List Text)
    → any (text_eq sym) ws ≡ false
    → filter (λ x. not (text_eq x sym)) (ws ++ (sym ∷ [])) ≡ ws
filter-absent sym [] h = ground (arith, text_eq_refl sym)
filter-absent sym (x ∷ ws) h =
    ground (arith, text_eq_iff x sym, text_eq_iff sym x, filter-absent sym ws)

-- Toggling a symbol adds its trimmed upper-case form to the watchlist if it is not there and takes
-- it out if it is, and every other symbol is in the watchlist after it exactly if before.
pub any-toggle_watchlist :
    (upper : Text → Text) (json : List Text → Text) (blocked : Bool) (symbol t : Text)
    (w : AnalyzerState × Dict Text)
    → any (text_eq t) (toggle_watchlist upper json blocked symbol w).0.watchlist ≡ (
        if text_eq (trim (upper symbol)) t
        then not (any (text_eq t) w.0.watchlist)
        else any (text_eq t) w.0.watchlist)
unfolding toggle_watchlist
any-toggle_watchlist upper json blocked symbol t w =
    any-toggled (trim (upper symbol)) t w.0.watchlist

loaded :
    (parse : Text → Option (List Text)) (saved : Text) (ws : List Text)
    → parse saved ≡ some ws
    → saved ≢ []
    → get_initial_watchlist parse (some (some saved)) ≡ ws
unfolding get_initial_watchlist
loaded parse [] ws e ne = absurd (ne refl)
loaded parse (c ∷ saved) ws e ne = rw e refl

-- If JSON decodes what it encodes and never gives an empty text: with storage open, what is loaded
-- at the next start is the watchlist after the toggle.
pub saved_watchlist_is_loaded :
    (upper : Text → Text) (json : List Text → Text) (parse : Text → Option (List Text))
    (symbol : Text) (w : AnalyzerState × Dict Text)
    → ((ws : List Text) → parse (json ws) ≡ some ws)
    → ((ws : List Text) → json ws ≢ [])
    → get_initial_watchlist parse
        (some (lookup watchlist_key (toggle_watchlist upper json false symbol w).1))
      ≡ (toggle_watchlist upper json false symbol w).0.watchlist
unfolding toggle_watchlist
saved_watchlist_is_loaded upper json parse symbol w round ne =
    let ws = toggled (trim (upper symbol)) w.0.watchlist in
    rw (lookup-insert watchlist_key watchlist_key (json ws) w.1)
      (loaded parse (json ws) ws (round ws) (ne ws))
