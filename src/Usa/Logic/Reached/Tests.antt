-- ===== src/Usa/Logic/Reached/Tests.antt =====
-- Each setting is changed to 60.
use usched.Base.{ℕ, false, List, [], err, Errno, codes}
use usched.Usa.Users.{Number}
use usched.Usa.Logic.Reached.{AllChange, settings, change_reaches}

abbrev no_number : List ℕ → Number
no_number text = record { value = 0; used = 0; failed = false }

change_reaches_example :
    AllChange no_number false (err Errno.einval) (err Errno.einval) (codes "60") [] settings
change_reaches_example =
    change_reaches no_number false (err Errno.einval) (err Errno.einval) (codes "60") []
