-- ===== src/Queries/Seen.antt =====
-- What react-query tells keys apart by, and what the server is asked. react-query compares the texts
-- `JSON.stringify(key)` makes, with the fields of each object in the order of their names; an
-- `undefined` field is left out of it. axios leaves an `undefined` parameter out of the address. So an
-- object is here what is read from it.
use finance_buddy.Api.Request.{Body, Params, Request, Value, Verb, undefined}
use finance_buddy.Prelude.{
  Bool, Bool-cases, List, Option, String, Text, eq_iff, inl, inr, lookup, lookup-insert, none, refl,
  some, ◌==◌, ◌∷◌, ◌≡◌, ◌≢◌, [], insert, subst, sym, ◌∙◌,
}
use finance_buddy.Queries.Key.{Key, Part, boolean, fields, nothing, spread, str}

abbrev pub Fields : Type 0
Fields = String → Option Value

abbrev present : Option Value → Option Value
present none = none
present (some undefined) = none
present (some v) = some v

abbrev pub read : Params → Fields
read p k = present (lookup k p)

pub data SeenPart : Type 0 where
  seen_str : Text → SeenPart
  seen_fields : Fields → SeenPart
  seen_boolean : Bool → SeenPart
  seen_nothing : SeenPart

abbrev pub SeenKey : Type 0
SeenKey = List SeenPart

abbrev pub seen_part : Part → SeenPart
seen_part (str t) = seen_str t
seen_part (fields p) = seen_fields (read p)
seen_part (boolean b) = seen_boolean b
seen_part nothing = seen_nothing

abbrev pub seen_key : Key → SeenKey
seen_key [] = []
seen_key (part ∷ key) = seen_part part ∷ seen_key key

pub record SeenRequest : Type 0 where
  pub verb : Verb
  pub path : Text
  pub fields : Fields
  pub headers : List (String × Text)
  pub body : Body

abbrev pub seen_request : Request → SeenRequest
seen_request r = record {
  verb = r.verb;
  path = r.path;
  fields = read r.params;
  headers = r.headers;
  body = r.body;
}

-- An object with each field once and none `undefined`.
abbrev pub IsPlain : Params → Type 0
IsPlain [] = Unit
IsPlain ((k, v) ∷ p) = (lookup k p ≡ none) × (v ≢ undefined) × IsPlain p

-- `{ ...p, ...extra }`, of what is read.
abbrev over : Option Value → Option Value → Option Value
over none below = below
over (some v) below = some v

abbrev pub merged : Fields → Fields → Fields
merged p extra k = over (extra k) (p k)

present_of_ne : (v : Value) → v ≢ undefined → present (some v) ≡ some v
present_of_ne (Value.text t) h = refl
present_of_ne (Value.num n) h = refl
present_of_ne (Value.flag b) h = refl
present_of_ne (Value.file t) h = refl
present_of_ne (Value.any t) h = refl
present_of_ne Value.null h = refl
present_of_ne undefined h = absurd (h refl)

read-spread :
    (extra p : Params) (k : String)
    → IsPlain extra
    → read (spread p extra) k ≡ merged (read p) (read extra) k
unfolding spread lookup
read-spread [] p k h = refl
read-spread ((j, v) ∷ extra) p k h =
    read-spread extra (insert j v p) k h.2 ∙ elim (Bool-cases (j == k)) [
      | inl e ↦
          let gone : lookup k extra ≡ none =
            subst (λ i. lookup i extra ≡ none) ((eq_iff j k).0 e) h.0 in
          rw (gone, lookup-insert j k v p, e, present_of_ne v h.1) refl
      | inr e ↦ rw (lookup-insert j k v p, e) refl
    ]

pub merged-spread :
    (p extra : Params) → IsPlain extra → merged (read p) (read extra) ≡ read (spread p extra)
merged-spread p extra h = λ i k. sym (read-spread extra p k h) i

pub IsPlain-single : (k : String) (v : Value) → v ≢ undefined → IsPlain ((k, v) ∷ [])
unfolding lookup
IsPlain-single k v h = (refl, h, tt)
