-- ===== src/Common/Str/Tests.antt =====
-- Two occurrences of a variable.
use usched.Common.Str.{strstr}
use usched.Base.{ℕ, ◌≡◌, refl, Bool, true, some, codes}
use usched.Common.Str.{strreplall}
use usched.Common.Str.Replace.{substituted, strreplall_lem}

abbrev all : ℕ → Bool
all n = true

strreplall_lem_example :
    strreplall all (codes "a@@b@@") (codes "@@") (codes "@@@") ≡ some (codes "a@@@b@@@")
unfolding strstr strreplall substituted
strreplall_lem_example =
    strreplall_lem all (λ n. refl) 64 (codes "@") (codes "@@@") (codes "a@@b@@")
