-- ===== src/Queries/Key.antt =====
-- What a hook hands to `useQuery`: the key, the request that `queryFn` makes and whether it may run.
-- How long an answer is kept and how often a query is repeated are left out, as are the waiting and
-- error states, which are react-query's. What react-query tells keys apart by is in `Seen`.
use finance_buddy.Api.Request.{Params, Request}
use finance_buddy.Prelude.{
  Bool, List, Option, String, Text, [], codes, insert, none, some, ◌++◌, ◌∷◌,
}

pub data Part : Type 0 where
  str : Text → Part
  fields : Params → Part
  boolean : Bool → Part
  nothing : Part

abbrev pub Key : Type 0
Key = List Part

pub record Query : Type 0 where
  pub key : Key
  pub request : Request
  pub enabled : Bool

abbrev pub name : String → Part
name s = str (codes s)

-- A session id in a key.
abbrev pub id_part : Option Text → Part
id_part none = nothing
id_part (some t) = str t

-- `sid!` in a template of the client: the assertion changes nothing, so `null` is written out.
abbrev pub forced : Option Text → Text
forced none = codes "null"
forced (some t) = t

-- `texts.join(',')`
abbrev pub join : List Text → Text
join [] = []
join (t ∷ []) = t
join (t ∷ (u ∷ ts)) = t ++ (44 ∷ join (u ∷ ts))

-- `{ ...p, ...extra }`
unfoldable pub spread : Params → Params → Params
unfolding insert
spread p [] = p
spread p ((k, v) ∷ extra) = spread (insert k v p) extra
