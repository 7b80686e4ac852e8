-- ===== src/Usa/Lists/Tests.antt =====
-- The lists of the authorization: the groups 5 and 7 are blacklisted, and the other files are those of the
-- samples.
use usched.Base.{◌⊎◌, ℕ, ◌≡◌, refl, true, false, List, [], ◌∷◌, codes}
use mathlib.Core.List.{Mem, not-mem-nil}
use mathlib.Core.List.Perm
use usched.Common.Files.{
  Attempt, returns, fails, overruns, FilePath, setting_file, fgets, strrtrim, trim_end,
}
use usched.Common.Entry.Signature.{bytes_eq}
use usched.Common.Str.{strlen}
use usched.Common.Settings.Samples.{Store, written, store_os-IsOs, store_libc, fives}
use usched.Usa.Words.{Category, blacklist, gid, core, delta, reload}
use usched.Usa.Admin.{Admin, zeroed}
use usched.Usa.Admin.Uncommitted.{AllKeep}
use usched.Usa.Lists.{text, tokens, read_lines, list_output}
use usched.Usa.Lists.Ops.{
  auth_admin_list_add, auth_admin_list_delete, auth_admin_list_change, auth_admin_list_show,
}
use usched.Usa.Lists.Text.{is_number}
use usched.Usa.Lists.Read.{AreNumbers, HasRoom}
use usched.Usa.Lists.Added.{IsWritable, Holds, Lists, cons-AreNumbers, add_lem}
use usched.Usa.Lists.Deleted.{delete-add}
use usched.Usa.Lists.Broken.{change_fails}
use usched.Usa.Lists.Empty.{add_empty_overruns}
use usched.Usa.Lists.Samples.{plain_lists, plain_lists-IsLineList, found-Mem}
use usched.Usa.Lists.Uncommitted.{auth_uncommitted, auth_keep}

abbrev groups : FilePath
groups = setting_file Category.auth true blacklist gid

abbrev two : List (List ℕ)
two = codes "5" ∷ codes "7" ∷ []

abbrev state : Admin Store
state = record { files = written fives groups (text two); config = zeroed; printed = [] }

room : HasRoom plain_lists store_libc.alloc
room = record { memory = λ n. refl; init = ([], refl); insert = λ l x. (x ∷ l, refl) }

writable : IsWritable store_libc plain_lists groups
writable = record { unlinks = λ f. refl; rewrites = λ f bytes. refl }

number_first :
    {value : List ℕ} {numbers : List (List ℕ)}
    → is_number value ≡ true
    → AreNumbers numbers
    → AreNumbers (value ∷ numbers)
number_first =
    cons-AreNumbers store_libc plain_lists groups store_os-IsOs plain_lists-IsLineList room writable

two-AreNumbers : AreNumbers two
two-AreNumbers = number_first refl (number_first refl (λ x m. absurd (not-mem-nil m)))

held : Holds store_libc plain_lists groups state.files two
unfolding written
held = (two, refl, Perm.rfl)

new : ¬ Mem (codes "6") two
unfolding bytes_eq
new m = let bad : false ≡ true = found-Mem two (codes "6") m in cc

delete-add_example :
    let added = auth_admin_list_add store_libc plain_lists groups blacklist gid (codes "6") state in
    let deleted =
      auth_admin_list_delete store_libc plain_lists groups blacklist gid (codes "6") added.1 in
    (added.0 ≡ returns tt)
    × (deleted.0 ≡ returns tt)
    × Holds store_libc plain_lists groups deleted.1.files two
delete-add_example =
    delete-add store_libc plain_lists groups store_os-IsOs plain_lists-IsLineList room writable
      blacklist gid (codes "6") two state two-AreNumbers refl held new

abbrev added : Attempt (Unit {0}) × Admin Store
added = auth_admin_list_add store_libc plain_lists groups blacklist gid (codes "6") state

add_lem_example :
    (Mem (codes "6") two × (added ≡ (fails, state)))
    ⊎ (¬ Mem (codes "6") two
        × Lists store_libc plain_lists groups store_os-IsOs plain_lists-IsLineList room writable
            blacklist gid
            (codes "6" ∷ two)
            state
            added)
add_lem_example =
    add_lem store_libc plain_lists groups store_os-IsOs plain_lists-IsLineList room writable
      blacklist gid (codes "6") two state two-AreNumbers refl held

-- The file is read into a list that has the last line first.
shown_groups :
    auth_admin_list_show store_libc plain_lists groups state ≡ (returns (codes "7,5"), state)
unfolding auth_admin_list_show read_lines list_output written fgets strrtrim trim_end strlen text
shown_groups = refl

abbrev one_and_two : List (List ℕ)
one_and_two = codes "1" ∷ codes "2" ∷ []

abbrev changed : Attempt (Unit {0}) × Admin Store
changed = auth_admin_list_change store_libc plain_lists groups blacklist gid (codes "1,2") state

change_fails_example :
    (changed.0 ≡ fails) × Holds store_libc plain_lists groups changed.1.files one_and_two
unfolding tokens
change_fails_example =
    change_fails store_libc plain_lists groups store_os-IsOs plain_lists-IsLineList room writable
      blacklist gid (codes "1,2") state
      (number_first refl (number_first refl (λ x m. absurd (not-mem-nil m))))

add_empty_overruns_example :
    ((auth_admin_list_add store_libc plain_lists groups blacklist gid [] state).0 ≡ overruns)
    × Holds store_libc plain_lists groups
        (auth_admin_list_add store_libc plain_lists groups blacklist gid [] state).1.files
        ([] ∷ two)
add_empty_overruns_example =
    add_empty_overruns store_libc plain_lists groups store_os-IsOs plain_lists-IsLineList room
      writable blacklist gid two state two-AreNumbers held

auth_keep_example :
    AllKeep store_libc
      (setting_file core false delta reload)
      (auth_uncommitted store_libc plain_lists (codes "8"))
auth_keep_example = auth_keep store_libc plain_lists store_os-IsOs (codes "8") core delta reload
