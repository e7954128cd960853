-- ===== src/Api/Unauthorized.antt =====
-- The interceptors of client.ts. The request interceptor attaches the access token; the response
-- interceptor ends the session on a 401, once for any number of requests that fail together. Its
-- handler is two steps, since it waits for `authClient.signOut()`; `_handling401` is in the world.
pub mod Effect
pub mod Exclusion
use finance_buddy.Auth.SignOut.{sign_out_start}
use finance_buddy.Browser.{Result, World, ok, threw}
use finance_buddy.Prelude.{
  Bool, Option, Text, codes, false, if◌then◌else◌, is_empty, nat_eq, none, not, some, true, truthy,
  ℕ, ◌&&◌, ◌++◌, ◌||◌,
}
use finance_buddy.Store.{clear_identity}

-- `config.headers['Authorization']`
unfoldable pub authorization : Option Text → Option Text
authorization none = none
authorization (some token) = if is_empty token then none else some (codes "Bearer " ++ token)

-- Where the handler of one failed response stands: it holds the cleanup while it waits for
-- `signOut`, or it has rejected, which it does in every case.
pub data Handler : Type 0 where
  cleaning : Result (Unit {0}) → Handler
  finished : Handler

-- The handler up to its first `await`. What `signOut` has done by then is kept with the handler: it
-- rejects later if it threw. `status` is `error?.response?.status`.
unfoldable pub on_error_start : Bool → Option ℕ → World → Handler × World
unfolding sign_out_start
on_error_start configured none w = (finished, w)
on_error_start configured (some status) w =
    if nat_eq status 401 && (truthy w.state.pan || truthy w.state.user_id) && not w.handling_401
    then (let (r, w') = sign_out_start configured (record w { handling_401 = true }) in
        (cleaning r, w'))
    else (finished, w)

-- The rest: `clearIdentity` if `signOut` did not throw, and the lock is released.
unfoldable pub on_error_resume : Result (Unit {0}) → World → Handler × World
on_error_resume (ok _) w =
    (finished, record w { state = clear_identity w.state; handling_401 = false })
on_error_resume threw w = (finished, record w { handling_401 = false })

-- Both parts with nothing in between.
unfoldable pub on_error : Bool → Option ℕ → World → World
unfolding on_error_start on_error_resume
on_error configured status w =
    let (h, w') = on_error_start configured status w in
    elim h [ cleaning r ↦ (on_error_resume r w').1 | finished ↦ w' ]
