-- ===== src/Tests/Messages.antt =====
-- The texts at sign-in.
use finance_buddy.Auth.Access.{request_access_message}
use finance_buddy.Auth.Messages.{normalize_auth_message, to_access_request_message}
use finance_buddy.Prelude.{Text, codes, none, refl, some, ◌++◌, ◌≡◌}

abbrev notice : Text
notice = codes "Your session has expired."

messages_test :
    (normalize_auth_message (some (notice ++ notice)) ≡ some notice)
    × (to_access_request_message (λ t. t) (some (codes "oops")) ≡ none)
unfolding normalize_auth_message to_access_request_message request_access_message
messages_test = (refl, refl)
