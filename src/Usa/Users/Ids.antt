-- ===== src/Usa/Users/Ids.antt =====
-- Which ids a request for a user hands on.
use usched.Base.{ℕ, ◌≤◌, ◌≡◌, false, List, [], ◌∷◌, length, Outcome, arith}
use usched.Common.Config.{u32}
use usched.Usa.Category.{add_user, calls}
use usched.Usa.Users.{Number, password_min, set_user, user_arguments, category_users_add}

module _ (strtoul : List ℕ → Number) (typed again : Outcome (List ℕ)) where
  -- If `strtoul` reads an empty text as 0 and leaves `errno` alone, as the C library does: an empty text
  -- for the group is accepted and makes the user one of the group 0, where the text for the user is a
  -- number and the password is long enough.
  pub add_empty_group :
      (username uid password : List ℕ)
      → strtoul [] ≡ record { value = 0; used = 0; failed = false }
      → (strtoul uid).used ≡ length uid
      → (strtoul uid).failed ≡ false
      → 1 ≤ length uid
      → password_min ≤ length password
      → category_users_add strtoul false typed again (username ∷ uid ∷ [] ∷ password ∷ [])
        ≡ calls (add_user username (u32 (strtoul uid).value) 0 password)
  unfolding category_users_add user_arguments set_user
  add_empty_group username uid password empty whole fine some_digit long =
      ground (arith, empty, whole, fine)
