-- ===== src/Tests/Codec.antt =====
-- A text for every notice that decodes to the notice again, as `JSON.stringify` and `JSON.parse`
-- are assumed to give.
use finance_buddy.Auth.Notice.{AccessStatus, AuthNotice, Json, not_requested, pending, approved}
use finance_buddy.Prelude.{
  Option, Text, [], drop, length, none, refl, some, suc, take, zero, ℕ, ◌++◌, ◌∷◌, ◌≡◌, ◌≢◌,
}

abbrev tag : AccessStatus → ℕ
tag not_requested = 0
tag pending = 1
tag approved = 2

abbrev untag : ℕ → AccessStatus
untag zero = not_requested
untag (suc zero) = pending
untag (suc (suc n)) = approved

abbrev encode_email : Option Text → Text → Text
encode_email none message = 0 ∷ message
encode_email (some t) message = suc (length t) ∷ t ++ message

abbrev pub encode_notice : AuthNotice → Text
encode_notice n = tag n.access_request_status ∷ encode_email n.email n.message

abbrev pub decode_notice : Text → Option AuthNotice
decode_notice [] = none
decode_notice (a ∷ []) = none
decode_notice (a ∷ zero ∷ m) =
    some (record { message = m; access_request_status = untag a; email = none })
decode_notice (a ∷ suc k ∷ r) =
    some (record { message = drop k r; access_request_status = untag a; email = some (take k r) })

abbrev pub codec : Json
codec = record { encode = encode_notice; decode = decode_notice }

take-length : (t m : Text) → take (length t) (t ++ m) ≡ t
take-length [] m = refl
take-length (c ∷ t) m = rw (take-length t m)

drop-length : (t m : Text) → drop (length t) (t ++ m) ≡ m
drop-length [] m = refl
drop-length (c ∷ t) m = drop-length t m

untag-tag : (s : AccessStatus) → untag (tag s) ≡ s
untag-tag not_requested = refl
untag-tag pending = refl
untag-tag approved = refl

pub codec_round : (n : AuthNotice) → decode_notice (encode_notice n) ≡ some n
codec_round n = round n.message n.access_request_status n.email
  where
    round :
        (m : Text) (s : AccessStatus) (e : Option Text)
        → decode_notice (tag s ∷ encode_email e m)
          ≡ some (record { message = m; access_request_status = s; email = e })
    round m s none = rw (untag-tag s)
    round m s (some t) = rw (untag-tag s, take-length t m, drop-length t m)

pub codec_ne : (n : AuthNotice) → encode_notice n ≢ []
codec_ne n = λ e. cc
