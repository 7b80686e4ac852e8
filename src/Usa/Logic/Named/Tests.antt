-- ===== src/Usa/Logic/Named/Tests.antt =====
-- A user is added to the whitelist.
use usched.Base.{ℕ, false, List, [], ◌∷◌, err, Errno, codes}
use usched.Usa.Words.{add, Category}
use usched.Usa.Request.{AdminRequest}
use usched.Usa.Users.{Number}
use usched.Usa.Logic.{op_admin_process}
use usched.Usa.Category.Fits.{Fits}
use usched.Usa.Logic.Named.{process-Fits}

abbrev no_number : List ℕ → Number
no_number text = record { value = 0; used = 0; failed = false }

abbrev whitelisting : AdminRequest
whitelisting = record {
  op = add;
  category = Category.auth;
  args = codes "whitelist" ∷ codes "uid" ∷ codes "1000" ∷ [];
}

process-Fits_example :
    Fits Category.auth add whitelisting.args
      (op_admin_process no_number false (err Errno.einval) (err Errno.einval) whitelisting)
process-Fits_example =
    process-Fits no_number false (err Errno.einval) (err Errno.einval) whitelisting
