-- ===== src/Tests/Saved.antt =====
-- A way of writing a list of texts as one text and reading it back, in the place of JSON: after a
-- first unit a 0 stands before each text, whose units are raised by one.
use finance_buddy.Prelude.{
  List, Option, Text, [], append-nil, none, refl, some, suc, zero, ◌++◌, ◌∷◌, ◌≡◌, ◌≢◌,
}

abbrev raised : Text → Text → Text
raised [] after = after
raised (c ∷ t) after = suc c ∷ raised t after

abbrev listed : List Text → Text
listed [] = []
listed (t ∷ ts) = 0 ∷ raised t (listed ts)

abbrev pub saved : List Text → Text
saved ts = 1 ∷ listed ts

abbrev read_on : Text → Text × List Text
read_on [] = ([], [])
read_on (zero ∷ s) = let rest = read_on s in ([], rest.0 ∷ rest.1)
read_on (suc c ∷ s) = let rest = read_on s in (c ∷ rest.0, rest.1)

abbrev pub load : Text → Option (List Text)
load [] = none
load (c ∷ s) = some (read_on s).1

read_on-raised :
    (t after : Text) → read_on (raised t after) ≡ (t ++ (read_on after).0, (read_on after).1)
read_on-raised [] after = refl
read_on-raised (c ∷ t) after = rw (read_on-raised t after) refl

read_on-listed : (ts : List Text) → read_on (listed ts) ≡ ([], ts)
read_on-listed [] = refl
read_on-listed (t ∷ ts) =
    rw (read_on-raised t (listed ts)) (rw (read_on-listed ts) (rw (append-nil t) refl))

pub load-saved : (ts : List Text) → load (saved ts) ≡ some ts
load-saved ts = rw (read_on-listed ts) refl

pub saved_ne : (ts : List Text) → saved ts ≢ []
saved_ne ts e = cc
