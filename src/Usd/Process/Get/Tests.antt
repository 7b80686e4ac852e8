-- ===== src/Usd/Process/Get/Tests.antt =====
-- User 1000 asks for its own entry 7 and for entry 8 of another user.
use usched.Common.Str.{strisascii}
use usched.Base.{ℕ, ◌≡◌, refl, List, [], ◌∷◌, Outcome, ok, err}
use usched.Common.Entry.{Entry, entry_copy}
use usched.Usd.Libs.Samples.{list_cll, list_psched}
use usched.Usd.Schedule.{schedule_entry_get_copy}
use usched.Usd.Process.Samples.{all, blank, zero_garbage, plain_cipher, runtime}
use usched.Usd.Process.Get.{copy_each}
use usched.Usd.Process.Get.Owned.{IsGathered, copy_each-IsGathered}

abbrev gathering : Outcome (List Entry × List ℕ)
gathering =
    copy_each list_cll list_psched all blank plain_cipher zero_garbage 4608 1000 runtime
      (7 ∷ 8 ∷ []) [] (0 ∷ 0 ∷ 0 ∷ 0 ∷ [])

abbrev gathered : Outcome (List Entry × List ℕ) → List Entry × List ℕ
gathered (ok found) = found
gathered (err x) = ([], [])

succeeds : gathering ≡ ok (gathered gathering)
unfolding copy_each schedule_entry_get_copy entry_copy strisascii
succeeds = refl

copy_each-IsGathered_example : IsGathered 1000 (0 ∷ 0 ∷ 0 ∷ 0 ∷ []) (gathered gathering)
copy_each-IsGathered_example =
    copy_each-IsGathered list_cll list_psched all blank plain_cipher zero_garbage 4608 1000 runtime
      (0 ∷ 0 ∷ 0 ∷ 0 ∷ []) (7 ∷ 8 ∷ []) [] (0 ∷ 0 ∷ 0 ∷ 0 ∷ []) (gathered gathering)
      (record { owned = tt; layout = refl }) succeeds
