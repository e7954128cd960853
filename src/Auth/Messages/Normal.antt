-- ===== src/Auth/Messages/Normal.antt =====
-- What normalizing does to a message.
use finance_buddy.Auth.Access.{request_access_message}
use finance_buddy.Auth.Messages.{replace_first, collapsed, halved, normalize_auth_message}
use finance_buddy.Prelude.{
  Text, [], arith, drop, false, is_empty, length, refl, suc, take, zero, ℕ, ◌++◌, ◌<◌, ◌∷◌, ◌≡◌,
  ◌≤◌, Bool, ap, if◌then◌else◌, includes, length-append, ltb, nat_eq, some, starts_with,
  text_eq_refl, trim, true, ◌%◌, ◌/◌, ◌||◌, Bool-cases, inl, inr, not, truthy,
}

take-append : (x y : Text) → take (length x) (x ++ y) ≡ x
take-append [] y = refl
take-append (c ∷ x) y = rw (take-append x y) refl

drop-append : (x y : Text) → drop (length x) (x ++ y) ≡ y
drop-append [] y = refl
drop-append (c ∷ x) y = drop-append x y

halved-twice : (x : Text) → 20 < length x → halved (x ++ x) ≡ x
unfolding halved
halved-twice x h =
    let size = length-append x x in
    let half : length (x ++ x) / 2 ≡ length x = omega (arith, size) in
    let long : ltb 40 (length (x ++ x)) ≡ true = ground (arith, size, h) in
    let even : nat_eq (length (x ++ x) % 2) 0 ≡ true = ground (arith, size) in
    rw half
      (rw (take-append x x) (rw (drop-append x x) (rw long (rw even (rw (text_eq_refl x) refl)))))

is_empty-take : (n : ℕ) (t : Text) → 1 ≤ n → is_empty t ≡ false → is_empty (take n t) ≡ false
is_empty-take zero t l h = ground (arith, l)
is_empty-take (suc n) [] l h = h
is_empty-take (suc n) (c ∷ t) l h = refl

is_empty-halved : (t : Text) → is_empty t ≡ false → is_empty (halved t) ≡ false
unfolding halved
is_empty-halved t h = ground (arith, is_empty-take (length t / 2) t)

-- Of the three texts between which two tests choose, none is empty.
chosen_not_empty :
    (a b : Bool) (u v w : Text)
    → is_empty u ≡ false
    → is_empty v ≡ false
    → is_empty w ≡ false
    → is_empty (if a || b then (if a then u else v) else w) ≡ false
chosen_not_empty true b u v w hu hv hw = hu
chosen_not_empty false true u v w hu hv hw = hv
chosen_not_empty false false u v w hu hv hw = hw

is_empty-collapsed : (t : Text) → is_empty t ≡ false → is_empty (collapsed t) ≡ false
unfolding collapsed replace_first request_access_message
is_empty-collapsed [] h = cc
is_empty-collapsed (c ∷ t) h =
    let doubled = request_access_message ++ request_access_message in
    chosen_not_empty (starts_with (c ∷ t) doubled) (includes t doubled)
      (request_access_message ++ drop (length doubled) (c ∷ t))
      (c ∷ replace_first t doubled request_access_message) (c ∷ t) refl refl refl

-- A message of more than twenty units that is shown twice in a row, with no white space around, is
-- shown once, after which the request message twice in it becomes once.
normalize_auth_message-twice :
    (x : Text)
    → 20 < length x
    → trim (x ++ x) ≡ x ++ x
    → normalize_auth_message (some (x ++ x)) ≡ some (collapsed x)
unfolding normalize_auth_message
normalize_auth_message-twice [] l e = absurd (omega (arith, l))
normalize_auth_message-twice (c ∷ x) l e =
    rw e (ap (λ m. some (collapsed m)) (halved-twice (c ∷ x) l))

-- A message normalizes to one that is not empty exactly when it is not blank.
truthy-normalize_auth_message :
    (raw : Text) → truthy (normalize_auth_message (some raw)) ≡ not (is_empty (trim raw))
unfolding normalize_auth_message
truthy-normalize_auth_message raw = elim (Bool-cases (is_empty (trim raw))) [
  | inl e ↦ rw e refl
  | inr e ↦ rw e (rw (is_empty-collapsed (halved (trim raw)) (is_empty-halved (trim raw) e)) refl)
]
