-- ===== src/Usa/Category/Fits.antt =====
-- What it means that a request calls the function that its words name, and that the tables of branches
-- see to it.
use usched.Base.{ℕ, ◌≡◌, refl, sym, true, List, [], ◌∷◌, Option, none, some, Bool-cases, inl, inr}
use usched.Usc.Words.{same_word}
use usched.Usa.Words.{
  AdminOp, add, delete, change, show, Category, Component, Property, blacklist, whitelist, uid, gid,
  component_word, property_word,
}
use usched.Usa.Request.{Usage}
use usched.Usa.Category.{
  Call, setting, whole, add_user, change_user, delete_user, Answer, calls, calls_only, bad_usage,
  invalid, asks_failed, Row, by_property, by_component, with_value, without_value, no_arguments,
}

-- The component whose function is called: the one that is named, but for three settings of the
-- whitelists, which call those of the blacklists.
abbrev pub target : Category → AdminOp → Component → Property → Component
target Category.auth add whitelist uid = blacklist
target Category.auth delete whitelist uid = blacklist
target Category.auth show whitelist gid = blacklist
target c o k p = k

-- The first two words name the component and the property.
abbrev pub Names : List (List ℕ) → Component → Property → Type 0
Names [] k p = ⊥
Names (w ∷ []) k p = ⊥
Names (w ∷ v ∷ more) k p =
    (same_word w (component_word k) ≡ true) × (same_word v (property_word p) ≡ true)

-- The value is the third word; to show a setting takes none.
abbrev pub value_of : AdminOp → List (List ℕ) → Option (List ℕ)
value_of show args = none
value_of o [] = none
value_of o (w ∷ []) = none
value_of o (w ∷ v ∷ []) = none
value_of o (w ∷ v ∷ value ∷ more) = some value

-- The first word is the user.
abbrev pub StartsWith : List (List ℕ) → List ℕ → Type 0
StartsWith [] username = ⊥
StartsWith (w ∷ more) username = w ≡ username

abbrev pub IsFor : Category → AdminOp → List (List ℕ) → Call → Type 0
IsFor c o args (setting c' k' p o' value) =
    (c' ≡ c)
    × (o' ≡ o)
    × (value ≡ value_of o args)
    × (k : Component) × Names args k p
    × (k' ≡ target c o k p)
IsFor c o args (whole c' o') = (c' ≡ c) × (o' ≡ o) × (args ≡ [])
IsFor c o args (add_user username user group password) =
    (c ≡ Category.users) × (o ≡ add) × StartsWith args username
IsFor c o args (change_user username user group password) =
    (c ≡ Category.users) × (o ≡ change) × StartsWith args username
IsFor c o args (delete_user username) = (c ≡ Category.users) × (o ≡ delete) × (args ≡ username ∷ [])

abbrev pub Fits : Category → AdminOp → List (List ℕ) → Answer → Type 0
Fits c o args (calls call) = IsFor c o args call
Fits c o args (calls_only call) = IsFor c o args call
Fits c o args (bad_usage usage) = Unit
Fits c o args invalid = Unit
Fits c o args asks_failed = Unit

-- Each property of a table calls its target.
abbrev pub PropertiesFit :
    Category → AdminOp → Component → List (Property × Component × Property) → Type 0
PropertiesFit c o k [] = Unit
PropertiesFit c o k ((p, k', q) ∷ rest) = (k' ≡ target c o k p) × (q ≡ p) × PropertiesFit c o k rest

abbrev pub RowsFit : Category → AdminOp → List Row → Type 0
RowsFit c o [] = Unit
RowsFit c o ((k, properties) ∷ rows) = PropertiesFit c o k properties × RowsFit c o rows

module _ (c : Category) (o : AdminOp) (w v : List ℕ) (more : List (List ℕ))
    (value : Option (List ℕ)) where
  by_property-Fits :
      (k : Component) (properties : List (Property × Component × Property))
      → value ≡ value_of o (w ∷ v ∷ more)
      → same_word w (component_word k) ≡ true
      → PropertiesFit c o k properties
      → Fits c o (w ∷ v ∷ more) (by_property c o value properties v)
  unfolding by_property
  by_property-Fits k [] third named fit = tt
  by_property-Fits k ((p, k', q) ∷ rest) third named (to, same, fit) =
      elim (Bool-cases (same_word v (property_word p))) [
        | inr other ↦ rw other (by_property-Fits k rest third named fit)
        | inl here ↦ rw (here, same) (refl, refl, third, k, (named, here), to)
      ]

  by_component-Fits :
      (rows : List Row)
      → value ≡ value_of o (w ∷ v ∷ more)
      → RowsFit c o rows
      → Fits c o (w ∷ v ∷ more) (by_component c o value rows w v)
  unfolding by_component
  by_component-Fits [] third fit = tt
  by_component-Fits ((k, properties) ∷ rows) third (here, fit) =
      elim (Bool-cases (same_word w (component_word k))) [
        | inr other ↦ rw other (by_component-Fits rows third fit)
        | inl named ↦ rw named (by_property-Fits k properties third named here)
      ]

module _ (c : Category) (o : AdminOp) (rows : List Row) (fit : RowsFit c o rows) where
  pub with_value-Fits :
      (args : List (List ℕ))
      → ((w v value : List ℕ) (more : List (List ℕ))
          → value_of o (w ∷ v ∷ value ∷ more) ≡ some value)
      → Fits c o args (with_value c o rows args)
  unfolding with_value
  with_value-Fits [] third = tt
  with_value-Fits (w ∷ []) third = tt
  with_value-Fits (w ∷ v ∷ []) third = tt
  with_value-Fits (w ∷ v ∷ value ∷ more) third =
      by_component-Fits c o w v (value ∷ more) (some value) rows (sym (third w v value more)) fit

  pub without_value-Fits :
      (args : List (List ℕ))
      → ((words : List (List ℕ)) → value_of o words ≡ none)
      → Fits c o args (without_value c o rows args)
  unfolding without_value
  without_value-Fits [] third = (refl, refl, refl)
  without_value-Fits (w ∷ []) third = tt
  without_value-Fits (w ∷ v ∷ more) third =
      by_component-Fits c o w v more none rows (sym (third (w ∷ v ∷ more))) fit

pub no_arguments-Fits :
    (c : Category) (o : AdminOp) (usage : Usage) (args : List (List ℕ))
    → Fits c o args (no_arguments c o usage args)
unfolding no_arguments
no_arguments-Fits c o usage [] = (refl, refl, refl)
no_arguments-Fits c o usage (arg ∷ args) = tt
