-- ===== src/Prelude/Members.antt =====
-- Membership in a list as a sum, with what `map` and `filter` do to it.
use Prim.Native.Nat.{ℕ, zero, suc}
use finance_buddy.Prelude.Lists.{All, filter, take, drop}
use finance_buddy.Prelude.Tests.{Bool-cases}
use mathlib.Core.Bool.{Bool, true}
use mathlib.Core.List.{List, [], ◌∷◌, ◌++◌, map}
use mathlib.Core.Logic.{◌⊎◌, inl, inr}
use mathlib.Core.Path.{◌≡◌, refl, sym, ap}

abbrev pub In : {A : Type 0} → A → List A → Type 0
In a [] = ⊥
In a (x ∷ xs) = (a ≡ x) ⊎ In a xs

module _ {A : Type 0} where
  pub In-append_left : (a : A) (xs ys : List A) → In a xs → In a (xs ++ ys)
  In-append_left a [] ys h = elim h [ ]
  In-append_left a (x ∷ xs) ys (inl e) = inl e
  In-append_left a (x ∷ xs) ys (inr h) = inr (In-append_left a xs ys h)

  pub In-append_right : (a : A) (xs ys : List A) → In a ys → In a (xs ++ ys)
  In-append_right a [] ys h = h
  In-append_right a (x ∷ xs) ys h = inr (In-append_right a xs ys h)

  pub In-append_inv : (a : A) (xs ys : List A) → In a (xs ++ ys) → In a xs ⊎ In a ys
  In-append_inv a [] ys h = inr h
  In-append_inv a (x ∷ xs) ys (inl e) = inl (inl e)
  In-append_inv a (x ∷ xs) ys (inr h) = elim (In-append_inv a xs ys h) [
    | inl m ↦ inl (inr m)
    | inr m ↦ inr m
  ]

  pub In-take : (a : A) (n : ℕ) (xs : List A) → In a (take n xs) → In a xs
  In-take a zero xs h = elim h [ ]
  In-take a (suc n) [] h = elim h [ ]
  In-take a (suc n) (x ∷ xs) (inl e) = inl e
  In-take a (suc n) (x ∷ xs) (inr h) = inr (In-take a n xs h)

  pub In-drop : (a : A) (n : ℕ) (xs : List A) → In a (drop n xs) → In a xs
  In-drop a zero xs h = h
  In-drop a (suc n) [] h = elim h [ ]
  In-drop a (suc n) (x ∷ xs) h = inr (In-drop a n xs h)

  pub In-filter : (p : A → Bool) (a : A) (xs : List A) → In a xs → p a ≡ true → In a (filter p xs)
  In-filter p a [] h t = h
  In-filter p a (x ∷ xs) (inl e) t = let t' : p x ≡ true = rw (← e) t in rw t' (inl e)
  In-filter p a (x ∷ xs) (inr h) t = elim (Bool-cases (p x)) [
    | inl k ↦ rw k (inr (In-filter p a xs h t))
    | inr k ↦ rw k (In-filter p a xs h t)
  ]

  kept :
      (p : A → Bool) (a x : A) (xs ys : List A)
      → p x ≡ true
      → (In a ys → In a xs × (p a ≡ true))
      → (a ≡ x) ⊎ In a ys
      → In a (x ∷ xs) × (p a ≡ true)
  kept p a x xs ys k ih (inl e) = (inl e, rw e k)
  kept p a x xs ys k ih (inr r) = let s = ih r in (inr s.0, s.1)

  pub In-filter_inv :
      (p : A → Bool) (a : A) (xs : List A) → In a (filter p xs) → In a xs × (p a ≡ true)
  In-filter_inv p a [] h = elim h [ ]
  In-filter_inv p a (x ∷ xs) h = elim (Bool-cases (p x)) [
    | inl k ↦ kept p a x xs (filter p xs) k (In-filter_inv p a xs) (rw k at h)
    | inr k ↦ let r = In-filter_inv p a xs (rw k at h) in (inr r.0, r.1)
  ]

  pub All-In {κ} : (P : A → Type κ) (a : A) (xs : List A) → All P xs → In a xs → P a
  All-In P a [] h m = elim m [ ]
  All-In P a (x ∷ xs) h (inl e) = rw e h.0
  All-In P a (x ∷ xs) h (inr m) = All-In P a xs h.1 m

  pub All-of_In {κ} : (P : A → Type κ) (xs : List A) → ((a : A) → In a xs → P a) → All P xs
  All-of_In P [] h = tt
  All-of_In P (x ∷ xs) h = (h x (inl refl), All-of_In P xs (λ a m. h a (inr m)))

module _ {A B : Type 0} where
  pub In-map_inv :
      (f : A → B) (b : B) (xs : List A) → In b (map f xs) → (a : A) × In a xs × (f a ≡ b)
  In-map_inv f b [] h = elim h [ ]
  In-map_inv f b (x ∷ xs) (inl e) = (x, inl refl, sym e)
  In-map_inv f b (x ∷ xs) (inr h) = let r = In-map_inv f b xs h in (r.0, inr r.1, r.2)

  pub In-map : (f : A → B) (a : A) (xs : List A) → In a xs → In (f a) (map f xs)
  In-map f a [] h = elim h [ ]
  In-map f a (x ∷ xs) (inl e) = inl (ap f e)
  In-map f a (x ∷ xs) (inr h) = inr (In-map f a xs h)

pub All-mono {ℓ κ} :
    {A : Type 0} (P : A → Type ℓ) (Q : A → Type κ) (xs : List A)
    → ((a : A) → P a → Q a)
    → All P xs
    → All Q xs
All-mono P Q [] f h = tt
All-mono P Q (x ∷ xs) f h = (f x h.0, All-mono P Q xs f h.1)

pub All-filter {κ} :
    {A : Type 0} (P : A → Type κ) (p : A → Bool) (xs : List A) → All P xs → All P (filter p xs)
All-filter P p [] h = tt
All-filter P p (x ∷ xs) h = elim (Bool-cases (p x)) [
  | inl k ↦ rw k (h.0, All-filter P p xs h.1)
  | inr k ↦ rw k (All-filter P p xs h.1)
]

pub All-map {κ} :
    {A B : Type 0} (P : B → Type κ) (f : A → B) (xs : List A)
    → All (λ a. P (f a)) xs
    → All P (map f xs)
All-map P f [] h = tt
All-map P f (x ∷ xs) h = (h.0, All-map P f xs h.1)
