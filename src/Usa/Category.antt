-- ===== src/Usa/Category.antt =====
-- src/usa/category.c: which function of the administration a request calls. What the functions of one
-- category share is here, and each category has a child; the users are in Usa/Users.
pub mod All
pub mod Auth
pub mod Core
pub mod Exec
pub mod Fits
pub mod Ipc
pub mod Network
pub mod Stat
pub mod Users
use usched.Base.{ℕ, List, [], ◌∷◌, Option, none, some, if◌then◌else◌}
use usched.Usc.Words.{same_word}
use usched.Usa.Words.{AdminOp, Category, Component, Property, component_word, property_word}
use usched.Usa.Request.{Usage, insuff_args, invalid_component, invalid_property}

-- A function of the administration, with what it is handed. The name of
-- `auth_admin_blacklist_gid_add(value)` is `setting auth blacklist gid add`; that of
-- `auth_admin_commit()` is `whole auth commit`.
pub data Call : Type 0 where
  setting : Category → Component → Property → AdminOp → (value : Option (List ℕ)) → Call
  whole : Category → AdminOp → Call
  add_user : (username : List ℕ) (uid gid : ℕ) (password : List ℕ) → Call
  change_user : (username : List ℕ) (uid gid : ℕ) (password : List ℕ) → Call
  delete_user : (username : List ℕ) → Call

-- The result of the call is the result of the request (`calls`), or is not looked at (`calls_only`). The
-- others fail with EINVAL, with a message on the usage or without one; `asks_failed` is a failure of
-- `input_password`.
pub data Answer : Type 0 where
  calls : Call → Answer
  calls_only : Call → Answer
  bad_usage : Usage → Answer
  invalid : Answer
  asks_failed : Answer

-- A branch on a component: the properties that it tells apart, and what each calls.
abbrev pub Row : Type 0
Row = Component × List (Property × Component × Property)

-- Each property calls the function of its own name.
unfoldable pub own : Component → List Property → List (Property × Component × Property)
own k [] = []
own k (p ∷ ps) = (p, k, p) ∷ own k ps

abbrev pub row : Component → List Property → Row
row k ps = (k, own k ps)

module _ (c : Category) (o : AdminOp) where
  -- The tests of `args[1]`.
  unfoldable pub by_property :
      Option (List ℕ) → List (Property × Component × Property) → (property : List ℕ) → Answer
  by_property value [] property = bad_usage invalid_property
  by_property value ((p, k, q) ∷ rest) property =
      let later = by_property value rest property in
      if same_word property (property_word p) then calls (setting c k q o value) else later

  -- The tests of `args[0]`.
  unfoldable pub by_component : Option (List ℕ) → List Row → (component property : List ℕ) → Answer
  by_component value [] component property = bad_usage invalid_component
  by_component value ((k, properties) ∷ rows) component property =
      let later = by_component value rows component property in
      if same_word component (component_word k)
      then by_property value properties property
      else later

  -- `argc < 3`, and the branches.
  unfoldable pub with_value : List Row → List (List ℕ) → Answer
  with_value rows [] = bad_usage insuff_args
  with_value rows (component ∷ []) = bad_usage insuff_args
  with_value rows (component ∷ property ∷ []) = bad_usage insuff_args
  with_value rows (component ∷ property ∷ value ∷ more) =
      by_component (some value) rows component property

  -- `!argc`, `argc < 2`, and the branches.
  pub without_value : List Row → List (List ℕ) → Answer
  without_value rows [] = calls_only (whole c o)
  without_value rows (component ∷ []) = bad_usage insuff_args
  without_value rows (component ∷ property ∷ more) = by_component none rows component property

  -- `if (argc)`, and the call.
  pub no_arguments : Usage → List (List ℕ) → Answer
  no_arguments usage [] = calls (whole c o)
  no_arguments usage (arg ∷ args) = bad_usage usage
