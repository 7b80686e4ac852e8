-- ===== src/Usd/Vars.antt =====
-- src/usd/vars.c: the variables in a command line are replaced by the values of its entry.
use usched.Base.{
  ℕ, zero, suc, ◌+◌, ◌-◌, ◌/◌, ◌%◌, Bool, true, false, List, [], ◌∷◌, ◌++◌, Option, none, some, ltb,
  if◌then◌else◌, codes, take,
}
use usched.Common.Config.{username_max}
use usched.Common.Str.{strlen, strreplall}
use usched.Usd.Index.{decimal}

hex_digit : ℕ → ℕ
hex_digit d = if ltb d 10 then 48 + d else 55 + d

-- `%016llX`: sixteen digits, the lowest last.
hex_digits : ℕ → ℕ → List ℕ → List ℕ
unfolding hex_digit
hex_digits zero n acc = acc
hex_digits (suc k) n acc = hex_digits k (n / 16) (hex_digit (n % 16) ∷ acc)

-- include/vars.h, `struct usched_vars`
pub record Vars : Type 0 where
  pub id : ℕ
  pub username : List ℕ
  pub uid : ℕ
  pub gid : ℕ
  pub trigger : ℕ
  pub step : ℕ
  pub expire : ℕ

-- The names of the variables and their values, in the order of the replacements. The user name is a
-- C string, cut to 31 bytes.
vars_of : Vars → List (List ℕ × List ℕ)
unfolding hex_digits
vars_of v =
    (codes "@@id@@", codes "0x" ++ hex_digits 16 v.id [])
    ∷ (codes "@@username@@", take (username_max - 1) (take (strlen v.username) v.username))
    ∷ (codes "@@uid@@", decimal v.uid)
    ∷ (codes "@@gid@@", decimal v.gid)
    ∷ (codes "@@trigger@@", decimal v.trigger)
    ∷ (codes "@@step@@", decimal v.step)
    ∷ (codes "@@expire@@", decimal v.expire)
    ∷ []

module _ (alloc : ℕ → Bool) where
  -- The flag says whether `tmp` is still the input.
  replace_each : List (List ℕ × List ℕ) → Bool → List ℕ → Bool × List ℕ
  replace_each [] changed tmp = (changed, tmp)
  replace_each ((var, value) ∷ rest) changed tmp = elim (strreplall alloc tmp var value) [
    | none ↦ replace_each rest changed tmp
    | some ret ↦ replace_each rest true ret
  ]

  -- NULL if nothing was replaced.
  unfoldable pub vars_replace_all : List ℕ → Vars → Option (List ℕ)
  unfolding replace_each vars_of
  vars_replace_all input v =
      let (changed, tmp) = replace_each (vars_of v) false input in
      if changed then some tmp else none
