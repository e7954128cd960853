-- ===== src/Admin/Directory/Pages.antt =====
-- What the directory shows when the server answers each search before the next is made.
use finance_buddy.Admin.Directory.{
  Scheme, Directory, search_timer, SchemeSearch, unless_all, schemes_answered, fetch_mf_data,
  page_limit, handle_search_mf, SchemesPage, initial_directory, handle_select_filter, FilterType,
  load_more, offers_more, by_amc, by_category,
}
use finance_buddy.Prelude.{
  List, Option, Text, [], drop, false, length, none, refl, some, take, take-append-drop, true, ◌++◌,
  ◌∷◌, ◌≡◌, ap, append_assoc, arith, if◌then◌else◌, length-append, suc, sym, zero, ℕ, ◌*◌, ◌+◌, ◌∙◌,
  ◌≤◌, Bool-cases, append-nil, empty_of_length, inl, inr, Bool, length-take,
}

-- All schemes of the server for a search text and the two filters.
abbrev pub Catalogue : Type 0
Catalogue = Text → Option Text → Option Text → List Scheme

-- The server's answer: at most 50 of them from the offset on, and how many there are in all.
abbrev pub page_of : Catalogue → SchemeSearch → SchemesPage
page_of catalogue q =
    let found = catalogue q.query q.amc q.category in
    record { schemes = some (take page_limit (drop q.offset found)); total = some (length found) }

-- What the search text and the filters on show stand for.
abbrev pub wanted : Catalogue → Directory → List Scheme
wanted catalogue s = catalogue s.query (unless_all s.amc) (unless_all s.category)

abbrev pub answered_by : Catalogue → SchemeSearch × Directory → Directory
answered_by catalogue (q, s) = schemes_answered q (some (page_of catalogue q)) s

abbrev pub timer_answered_by : Catalogue → Option SchemeSearch × Directory → Directory
timer_answered_by catalogue (none, s) = s
timer_answered_by catalogue (some q, s) = answered_by catalogue (q, s)

-- One thing after the other, each answered.
pub data Step (catalogue : Catalogue) : Directory → Directory → Type 0 where
  searching :
      {s : Directory} (q : Text)
      → Step catalogue s (timer_answered_by catalogue (search_timer (handle_search_mf q s)))
  filtering :
      {s : Directory} (f : FilterType) (value : Text)
      → Step catalogue s (answered_by catalogue (handle_select_filter f value s))
  more :
      {s : Directory}
      → offers_more s ≡ true
      → Step catalogue s (answered_by catalogue (load_more s))
  fetching : {s : Directory} → Step catalogue s (answered_by catalogue (fetch_mf_data s))

pub data Reach (catalogue : Catalogue) : Directory → Type 0 where
  first : Reach catalogue (answered_by catalogue (fetch_mf_data initial_directory))
  next : {s t : Directory} → Reach catalogue s → Step catalogue s t → Reach catalogue t

-- The list is the beginning of what is wanted, and the total its length.
pub record IsPrefix (catalogue : Catalogue) (s : Directory) : Type 0 where
  pub rest : List Scheme
  pub is_whole : s.schemes ++ rest ≡ wanted catalogue s
  pub is_total : s.total ≡ length (wanted catalogue s)
  pub is_settled : s.is_loading ≡ false

module _ {A : Type 0} where
  drop-append : (xs ys : List A) → drop (length xs) (xs ++ ys) ≡ ys
  drop-append [] ys = refl
  drop-append (x ∷ xs) ys = drop-append xs ys

IsPrefix-first_page :
    (catalogue : Catalogue) (s : Directory) (found : List Scheme)
    → s.schemes ≡ take page_limit (drop 0 found)
    → s.total ≡ length found
    → s.is_loading ≡ false
    → wanted catalogue s ≡ found
    → IsPrefix catalogue s
IsPrefix-first_page catalogue s found e t l w = record {
  rest = drop page_limit found;
  is_whole = rw (e, w) (take-append-drop page_limit found);
  is_total = rw w t;
  is_settled = l;
}

pub pressed : Catalogue → Directory → Directory
pressed catalogue s = answered_by catalogue (load_more s)

next_page :
    (catalogue : Catalogue) (s : Directory) (p : IsPrefix catalogue s)
    → (pressed catalogue s).schemes ≡ s.schemes ++ take page_limit p.rest
unfolding pressed load_more schemes_answered
next_page catalogue s p =
    ap (λ xs. s.schemes ++ take page_limit xs)
      (ap (drop (length s.schemes)) (sym p.is_whole) ∙ drop-append s.schemes p.rest)

IsPrefix-more :
    (catalogue : Catalogue) (s : Directory)
    → IsPrefix catalogue s
    → IsPrefix catalogue (pressed catalogue s)
unfolding pressed load_more schemes_answered
IsPrefix-more catalogue s p = record {
  rest = drop page_limit p.rest;
  is_whole =
      ap (λ xs. xs ++ drop page_limit p.rest) (next_page catalogue s p)
      ∙ append_assoc s.schemes (take page_limit p.rest) (drop page_limit p.rest)
      ∙ ap (λ xs. s.schemes ++ xs) (take-append-drop page_limit p.rest)
      ∙ p.is_whole;
  is_total = refl;
  is_settled = refl;
}

IsPrefix-Step :
    (catalogue : Catalogue) {s t : Directory}
    → Step catalogue s t
    → IsPrefix catalogue s
    → IsPrefix catalogue t
unfolding pressed search_timer handle_search_mf handle_select_filter load_more fetch_mf_data
    schemes_answered
IsPrefix-Step catalogue (searching q) p = IsPrefix-first_page catalogue _ _ refl refl refl refl
IsPrefix-Step catalogue (filtering by_amc value) p =
    IsPrefix-first_page catalogue _ _ refl refl refl refl
IsPrefix-Step catalogue (filtering by_category value) p =
    IsPrefix-first_page catalogue _ _ refl refl refl refl
IsPrefix-Step catalogue fetching p = IsPrefix-first_page catalogue _ _ refl refl refl refl
IsPrefix-Step catalogue (more {s} h) p = IsPrefix-more catalogue s p

Reach-IsPrefix : (catalogue : Catalogue) {s : Directory} → Reach catalogue s → IsPrefix catalogue s
unfolding fetch_mf_data initial_directory schemes_answered
Reach-IsPrefix catalogue first = IsPrefix-first_page catalogue _ _ refl refl refl refl
Reach-IsPrefix catalogue (next r h) = IsPrefix-Step catalogue h (Reach-IsPrefix catalogue r)

-- The button for more, pressed `n` times while it is there, each time answered.
pub press_more : Catalogue → ℕ → Directory → Directory
press_more catalogue zero s = s
press_more catalogue (suc n) s =
    press_more catalogue n (if offers_more s then pressed catalogue s else s)

nothing_left :
    (catalogue : Catalogue) (s : Directory) (p : IsPrefix catalogue s)
    → offers_more s ≡ false
    → length p.rest ≡ 0
unfolding offers_more
nothing_left catalogue s p h =
    ground (arith, ap length p.is_whole, length-append s.schemes p.rest, p.is_total, p.is_settled)

no_more :
    (catalogue : Catalogue) (s : Directory) (p : IsPrefix catalogue s)
    → length p.rest ≡ 0
    → (s.schemes ≡ wanted catalogue s) × (offers_more s ≡ false)
unfolding offers_more
no_more catalogue s p h = (
  sym (append-nil s.schemes)
      ∙ ap (λ xs. s.schemes ++ xs) (sym (empty_of_length p.rest h))
      ∙ p.is_whole,
  ground (arith, ap length p.is_whole, length-append s.schemes p.rest, p.is_total),
)

wanted-pressed :
    (catalogue : Catalogue) (s : Directory)
    → wanted catalogue (pressed catalogue s) ≡ wanted catalogue s
unfolding pressed load_more schemes_answered
wanted-pressed catalogue s = refl

press_more-suc :
    (catalogue : Catalogue) (n : ℕ) (s : Directory) (b : Bool)
    → offers_more s ≡ b
    → press_more catalogue (suc n) s ≡ press_more catalogue n (if b then pressed catalogue s else s)
unfolding press_more
press_more-suc catalogue n s b h =
    ap (λ x. press_more catalogue n (if x then pressed catalogue s else s)) h

-- Of what is left a page is taken.
left_after_page :
    (catalogue : Catalogue) (n : ℕ) (s : Directory) (p : IsPrefix catalogue s)
    (p' : IsPrefix catalogue (pressed catalogue s))
    → length p.rest ≤ suc n * 50
    → length p'.rest ≤ n * 50
left_after_page catalogue n s p p' l = omega (
  arith,
  l,
  ap length p.is_whole,
  ap length p'.is_whole,
  ap length (wanted-pressed catalogue s),
  ap length (next_page catalogue s p),
  length-append s.schemes p.rest,
  length-append s.schemes (take page_limit p.rest),
  length-append (pressed catalogue s).schemes p'.rest,
  length-take page_limit p.rest,
)

press_more-wanted :
    (catalogue : Catalogue) (n : ℕ) (s : Directory) (p : IsPrefix catalogue s)
    → length p.rest ≤ n * 50
    → ((press_more catalogue n s).schemes ≡ wanted catalogue s)
      × (offers_more (press_more catalogue n s) ≡ false)
unfolding press_more
press_more-wanted catalogue zero s p l = no_more catalogue s p (omega (arith, l))
press_more-wanted catalogue (suc n) s p l = elim (Bool-cases (offers_more s)) [
  | inl h ↦
      let p' = IsPrefix-more catalogue s p in
      let r =
        press_more-wanted catalogue n (pressed catalogue s) p'
          (left_after_page catalogue n s p p' l) in
      let e = press_more-suc catalogue n s true h in
      (ap (λ t. t.schemes) e ∙ r.0 ∙ wanted-pressed catalogue s, ap offers_more e ∙ r.1)
  | inr h ↦
      let r = press_more-wanted catalogue n s p (omega (arith, nothing_left catalogue s p h)) in
      let e = press_more-suc catalogue n s false h in
      (ap (λ t. t.schemes) e ∙ r.0, ap offers_more e ∙ r.1)
]

-- From every state that is reached when each search is answered before the next is made, the button
-- for more leads to all schemes: pressed at least as often as there are pages of 50 left, the list is
-- what the server has for the text and the filters on show, and the button is gone.
pub all_schemes_are_listed :
    (catalogue : Catalogue) (n : ℕ) {s : Directory}
    → Reach catalogue s
    → length (wanted catalogue s) ≤ length s.schemes + n * 50
    → ((press_more catalogue n s).schemes ≡ wanted catalogue s)
      × (offers_more (press_more catalogue n s) ≡ false)
all_schemes_are_listed catalogue n {s} r l =
    let p = Reach-IsPrefix catalogue r in
    press_more-wanted catalogue n s p
      (omega (arith, ap length p.is_whole, length-append s.schemes p.rest, l))
