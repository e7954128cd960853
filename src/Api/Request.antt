-- ===== src/Api/Request.antt =====
-- A request as the methods of `apiClient` hand it to axios: the verb, the path that is put behind
-- the base URL, the query parameters, the headers and the body. A value of type `any`, a file or a
-- record that is only passed on is an opaque text.
use finance_buddy.Prelude.{
  Bool, List, Option, String, Text, [], codes, if◌then◌else◌, ltb, none, some, suc, zero, ℕ, ◌%◌,
  ◌++◌, ◌+◌, ◌/◌, ◌∷◌,
}

pub data Value : Type 0 where
  text : Text → Value
  num : ℕ → Value
  flag : Bool → Value
  file : Text → Value
  any : Text → Value
  null undefined : Value

abbrev pub Params : Type 0
Params = List (String × Value)

pub data Verb : Type 0 where
  get post put patch delete : Verb

pub data Body : Type 0 where
  no_body : Body
  form : Params → Body
  object : Params → Body
  passed : Value → Body

pub record Request : Type 0 where
  pub verb : Verb
  pub path : Text
  pub params : Params
  pub headers : List (String × Text)
  pub body : Body

abbrev pub plain : Verb → Text → Request
plain verb path = record { verb = verb; path = path; params = []; headers = []; body = no_body }

abbrev pub with_params : Params → Request → Request
with_params params r = record r { params = params }

abbrev pub with_header : String → Text → Request → Request
with_header name value r = record r { headers = (name, value) ∷ [] }

abbrev pub with_body : Body → Request → Request
with_body body r = record r { body = body }

-- `${prefix}${part}${suffix}`
abbrev pub around : String → Text → String → Text
around prefix part suffix = codes prefix ++ part ++ codes suffix

-- The decimal digits of a number in a template; the number itself is fuel enough.
decimal_from : ℕ → ℕ → Text → Text
decimal_from zero n acc = acc
decimal_from (suc f) n acc =
    let more = decimal_from f (n / 10) ((48 + n % 10) ∷ acc) in
    if ltb n 10 then (48 + n) ∷ acc else more

unfoldable pub decimal : ℕ → Text
unfolding decimal_from
decimal n = decimal_from (suc n) n []

-- An optional argument of a method.
abbrev pub optional : Option Text → Value
optional none = undefined
optional (some t) = text t
