-- ===== src/Usa/Users/Requests.antt =====
-- The requests for users call the functions for users.
use usched.Base.{
  ℕ, refl, Bool, not, List, [], ◌∷◌, ◌==◌, ltb, length, Outcome, ok, err, ◌||◌, Bool-cases, inl,
  inr,
}
use usched.Common.Config.{u32}
use usched.Common.Entry.Signature.{bytes_eq}
use usched.Usa.Words.{AdminOp, Category, delete}
use usched.Usa.Category.{Call}
use usched.Usa.Category.Fits.{Fits, IsFor}
use usched.Usa.Users.{
  Number, password_min, set_user, ask_password, user_arguments, category_users_delete,
}

module _ (strtoul : List ℕ → Number) (stale : Bool) (typed again : Outcome (List ℕ)) (o : AdminOp)
    (admin : List ℕ → ℕ → ℕ → List ℕ → Call) where
  -- The call for the user of the first word is in order, whatever ids and password it has.
  abbrev pub IsOwn : (username : List ℕ) (words : List (List ℕ)) → Type 0
  IsOwn username words =
      (user group : ℕ) (password : List ℕ)
      → IsFor Category.users o (username ∷ words) (admin username user group password)

  set_user-Fits :
      (username uid gid password : List ℕ) (words : List (List ℕ))
      → IsOwn username words
      → Fits Category.users o
          (username ∷ words)
          (set_user strtoul stale typed again admin username uid gid password)
  unfolding set_user
  set_user-Fits username uid gid password words own =
      let user = strtoul uid in
      let group = strtoul gid in
      elim (Bool-cases (ltb (length password) password_min)) [
        | inl short ↦ rw short tt
        | inr long ↦
            elim (Bool-cases
              (ltb user.used (length uid) || (user.used == 0 || (stale || user.failed)))) [
                | inl odd ↦ rw (long, odd) tt
                | inr whole ↦ elim (Bool-cases (ltb group.used (length gid) || group.failed)) [
                  | inl odd ↦ rw (long, whole, odd) tt
                  | inr fine ↦
                      rw (long, whole, fine) (own (u32 user.value) (u32 group.value) password)
                ]
              ]
      ]

  ask_password-Fits :
      (username uid gid : List ℕ) (words : List (List ℕ))
      → IsOwn username words
      → Fits Category.users o (username ∷ words) (
          ask_password strtoul stale typed again
            (set_user strtoul stale typed again admin username uid gid))
  unfolding ask_password
  ask_password-Fits username uid gid words own = by_input typed again
    where
      by_input :
          (first second : Outcome (List ℕ))
          → Fits Category.users o (username ∷ words) (
              ask_password strtoul stale first second
                (set_user strtoul stale typed again admin username uid gid))
      by_input (err x) second = tt
      by_input (ok first) (err x) = tt
      by_input (ok first) (ok second) = elim (Bool-cases (not (bytes_eq first second))) [
        | inl differ ↦ rw differ tt
        | inr same ↦ rw same (set_user-Fits username uid gid first words own)
      ]

  pub user_arguments-Fits :
      (args : List (List ℕ))
      → ((username : List ℕ) (words : List (List ℕ)) → IsOwn username words)
      → Fits Category.users o args (user_arguments strtoul stale typed again admin args)
  unfolding user_arguments
  user_arguments-Fits [] own = tt
  user_arguments-Fits (a ∷ []) own = tt
  user_arguments-Fits (a ∷ b ∷ []) own = tt
  user_arguments-Fits (a ∷ b ∷ c ∷ []) own =
      ask_password-Fits a b c (b ∷ c ∷ []) (own a (b ∷ c ∷ []))
  user_arguments-Fits (a ∷ b ∷ c ∷ d ∷ []) own =
      set_user-Fits a b c d (b ∷ c ∷ d ∷ []) (own a (b ∷ c ∷ d ∷ []))
  user_arguments-Fits (a ∷ b ∷ c ∷ d ∷ e ∷ args) own = tt

pub delete-Fits :
    (args : List (List ℕ)) → Fits Category.users delete args (category_users_delete args)
unfolding category_users_delete
delete-Fits [] = tt
delete-Fits (username ∷ []) = (refl, refl, refl)
delete-Fits (username ∷ arg ∷ args) = tt
