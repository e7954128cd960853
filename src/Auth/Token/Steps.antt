-- ===== src/Auth/Token/Steps.antt =====
-- Reads of the access token as the browser interleaves them: each waits for the provider while
-- other reads, a sign-out or a change of password run.
use finance_buddy.Auth.SignOut.{sign_out_start}
use finance_buddy.Auth.Token.{
  get_access_token_start, World, waiting, answered, get_access_token_resume, SessionReply,
  token_exp, token_fresh_until, session, update_password,
}
use finance_buddy.Auth.Token.Timely.{
  IsTimely, later-IsTimely, answered-before_exp, resume-IsTimely, sign_out_start-cache,
  update_password-IsTimely,
}
use finance_buddy.Prelude.{
  All, Bool, List, Option, Text, [], arith, none, refl, some, suc, true, ℕ, ◌*◌, ◌++◌, ◌+◌, ◌<◌,
  ◌∷◌, ◌≡◌, ◌≢◌, ◌≤◌,
}

pub record Machine : Type 0 where
  pub clock : ℕ
  pub world : World
  -- the times at which the reads began that wait for an answer
  pub reads : List ℕ

module _ (read_exp : Text → Option ℕ) where
  -- One step: time passes, a read begins and has to wait, the provider answers any one of the
  -- waiting reads, the user signs out, or changes the password.
  pub data Step (m : Machine) : Machine → Type 0 where
    tick : (d : ℕ) → Step m (record m { clock = m.clock + d })
    ask :
        get_access_token_start read_exp true m.clock m.world ≡ waiting m.clock
        → Step m (record m { reads = m.clock ∷ m.reads })
    answer :
        (before after : List ℕ) (t : ℕ) (reply : SessionReply)
        → m.reads ≡ before ++ t ∷ after
        → Step m (record m {
          world = (get_access_token_resume read_exp t reply m.world).1;
          reads = before ++ after;
        })
    leave : Step m (record m { world = (sign_out_start true m.world).1 })
    change_password :
        (accepted : Bool) (reply : SessionReply) (password : Text)
        → Step m (record m {
          world = (update_password read_exp true accepted m.clock reply password m.world).1;
        })

  pub data Reach (m : Machine) : Machine → Type 0 where
    here : Reach m m
    next : {n n' : Machine} → Reach m n → Step n n' → Reach m n'

  pub record IsOrderly (m : Machine) : Type 0 where
    pub timely : IsTimely read_exp m.clock m.world
    pub begun : All (λ t. t ≤ m.clock) m.reads

  All-later : (a b : ℕ) (ts : List ℕ) → a ≤ b → All (λ t. t ≤ a) ts → All (λ t. t ≤ b) ts
  All-later a b [] h v = tt
  All-later a b (t ∷ ts) h (p, v) = (omega arith, All-later a b ts h v)

  All-split :
      (a : ℕ) (before after : List ℕ) (t : ℕ)
      → All (λ u. u ≤ a) (before ++ t ∷ after)
      → (t ≤ a) × All (λ u. u ≤ a) (before ++ after)
  All-split a [] after t v = v
  All-split a (u ∷ before) after t (p, v) = let (q, r) = All-split a before after t v in (q, (p, r))

  Step-IsOrderly : {m n : Machine} → Step m n → IsOrderly m → IsOrderly n
  Step-IsOrderly {m} (tick d) o = record {
    timely = later-IsTimely read_exp m.clock (m.clock + d) m.world (omega arith) o.timely;
    begun = All-later m.clock (m.clock + d) m.reads (omega arith) o.begun;
  }
  Step-IsOrderly {m} (ask e) o = record { timely = o.timely; begun = (omega arith, o.begun) }
  Step-IsOrderly {m} (answer before after t reply e) o =
      let (p, rest) = All-split m.clock before after t (rw e at (o.begun)) in
      record { timely = resume-IsTimely read_exp t m.clock reply m.world p; begun = rest }
  Step-IsOrderly {m} leave o = record {
    timely = rw (sign_out_start-cache true m.world) tt;
    begun = o.begun;
  }
  Step-IsOrderly {m} (change_password accepted reply password) o = record {
    timely =
        update_password-IsTimely read_exp true accepted m.clock reply password m.world o.timely;
    begun = o.begun;
  }

  Reach-IsOrderly : {m n : Machine} → IsOrderly m → Reach m n → IsOrderly n
  Reach-IsOrderly o here = o
  Reach-IsOrderly o (next r st) = Step-IsOrderly st (Reach-IsOrderly o r)

  -- Start with an empty cache and no read in progress, and let reads, answers, sign-outs and
  -- password changes interleave in any order: whenever a token is handed out from the cache, and
  -- it states an expiry, that is more than a minute away.
  pub served-before_exp :
      (m n : Machine) (exp : ℕ) (token : Text)
      → m.world.cache ≡ none
      → m.reads ≡ []
      → Reach m n
      → get_access_token_start read_exp true n.clock n.world ≡ answered (some token)
      → token_exp read_exp token ≡ some (suc exp)
      → n.clock + 60000 < suc exp * 1000
  served-before_exp m n exp token empty idle r e stated =
      let start : IsOrderly m = record { timely = rw empty tt; begun = rw idle tt } in
      answered-before_exp read_exp n.clock exp n.world token (Reach-IsOrderly start r).timely e
        stated

  -- A read that is waiting when the user signs out puts its token back: if the provider then
  -- answers it with a session whose token, received at the time of the read, is still fresh, the
  -- next read hands out the token of the account that has signed out.
  pub served_after_sign_out :
      (t now : ℕ) (token : Text) (w : World)
      → token ≢ []
      → now < token_fresh_until read_exp token t
      → get_access_token_start read_exp true now
          (get_access_token_resume read_exp t (session (some token)) (sign_out_start true w).1).1
        ≡ answered (some token)
  unfolding get_access_token_start get_access_token_resume
  served_after_sign_out t now [] w ne fresh = absurd (ne refl)
  served_after_sign_out t now (c ∷ s) w ne fresh = ground arith
