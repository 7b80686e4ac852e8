-- ===== src/Usa/Admin/RoundTrip.antt =====
-- A setting that is changed is shown with a star until it is committed, and without it afterwards.
use usched.Base.{
  ℕ, ◌+◌, ◌≡◌, ◌≢◌, refl, ap, ◌∙◌, ◌⊎◌, inl, inr, sym, Bool-cases, codes, ◌++◌, true, false, List,
  [], ◌∷◌, some, arith,
}
use usched.Common.Entry.Signature.{bytes_eq, bytes_eq_refl, eq_of_bytes_eq}
use usched.Common.Files.{Attempt, returns, setting_file, IsOs, Service}
use usched.Common.Files.Lines.{IsLine, read_line}
use usched.Common.Settings.{Libc}
use usched.Usa.Words.{Category, Component, Property}
use usched.Usa.Admin.{
  Admin, path_length, file_read_line_single, file_write_line_single, shown, property_show,
  admin_property_show, commit_files, print_admin_category_var_value,
}
use usched.Usa.Admin.Commit.{AreCopied}
use usched.Usa.Admin.Frame.{write-other}
use usched.Usa.Admin.Outcome.{commit_lem}

-- The setting is one of these.
abbrev pub Has : Component → Property → List (Component × Property) → Type 0
Has k p [] = ⊥
Has k p ((k', p') ∷ settings) = ((k ≡ k') × (p ≡ p')) ⊎ Has k p settings

module _ {F : Type 0} (c : Libc F) (memory : (n : ℕ) → c.alloc n ≡ true) (category : Category)
    (k : Component) (p : Property) where
  -- The line that a show of the setting prints.
  abbrev pub prints : (value : List ℕ) → Admin F → Attempt (Unit {0}) × Admin F
  prints value s = (returns tt, record s { printed = (category, k, p, value) ∷ s.printed })

  read_lem :
      (staged : _) {v : List ℕ} (s : Admin F)
      → IsLine v
      → c.os.open_read s.files (setting_file category staged k p) ≡ some v
      → file_read_line_single c (setting_file category staged k p) s ≡ (returns v, s)
  unfolding file_read_line_single
  read_lem staged s l there = ground (arith, there, memory 8192, read_line l)

  show_lem :
      {v e : List ℕ} (s : Admin F)
      → IsLine v
      → IsLine e
      → c.os.open_read s.files (setting_file category true k p) ≡ some v
      → c.os.open_read s.files (setting_file category false k p) ≡ some e
      → property_show c category k p s ≡ prints (shown c e v) s
  unfolding property_show print_admin_category_var_value
  show_lem {v} {e} s lv le at_v at_e =
      rw (read_lem true s lv at_v, read_lem false s le at_e, memory _) refl

  admin_show_lem :
      (dir_base : List ℕ) {v e : List ℕ} (s : Admin F)
      → IsLine v
      → IsLine e
      → c.os.open_read s.files (setting_file category true k p) ≡ some v
      → c.os.open_read s.files (setting_file category false k p) ≡ some e
      → admin_property_show c dir_base category k p s ≡ prints (shown c e v) s
  unfolding admin_property_show
  admin_show_lem dir_base s lv le at_v at_e =
      let len = path_length c dir_base category k p in
      rw (memory (len + 2), memory (len + 1)) (show_lem s lv le at_v at_e)

  counts-ne-staged :
      (k' : Component) (p' : Property)
      → setting_file category false k p ≢ setting_file category true k' p'
  counts-ne-staged k' p' = cc

  staged-ne-counts :
      (k' : Component) (p' : Property)
      → setting_file category true k p ≢ setting_file category false k' p'
  staged-ne-counts k' p' = cc

  shown_same : (v : List ℕ) → shown c v v ≡ v
  shown_same v = rw (bytes_eq_refl v) refl

  Has-copied :
      (settings : List (Component × Property)) {f f' : F}
      → Has k p settings
      → AreCopied c category false settings f f'
      → c.os.open_read f' (setting_file category false k p)
        ≡ c.os.open_read f (setting_file category true k p)
  Has-copied [] h copied = elim h [ ]
  Has-copied ((k', p') ∷ settings) (inl (at_k, at_p)) (here, copied) = rw (at_k, at_p) here
  Has-copied ((k', p') ∷ settings) (inr h) (here, copied) = Has-copied settings h copied

  abbrev pub changed : (v : List ℕ) → Admin F → Attempt (Unit {0}) × Admin F
  changed v s = file_write_line_single c (setting_file category true k p) v s

  abbrev pub committed :
      List Service → List (Component × Property) → Admin F → Attempt (Unit {0}) × Admin F
  committed services settings s = commit_files c services category settings s

  changed-staged :
      IsOs c.os
      → (v : List ℕ) (s : Admin F) → (changed v s).0 ≡ returns tt
      → c.os.open_read (changed v s).1.files (setting_file category true k p) ≡ some v
  unfolding file_write_line_single
  changed-staged is_os v s written = ground (
    arith,
    is_os.read-rewrite (c.os.unlink s.files (setting_file category true k p)).0
        (setting_file category true k p) v,
  )

  -- A show prints the value that waits: as it is if it is the one that counts, and otherwise with a star.
  abbrev pub ShowsWaiting :
      (show : Admin F → Attempt (Unit {0}) × Admin F) (waiting effective : List ℕ)
      → Admin F
      → Type 0
  ShowsWaiting show waiting effective s =
      ((waiting ≡ effective) × (show s ≡ prints waiting s))
      ⊎ ((waiting ≢ effective) × (show s ≡ prints (waiting ++ codes "*") s))

  shown-Waiting :
      (show : Admin F → Attempt (Unit {0}) × Admin F) (v e : List ℕ) (s : Admin F)
      → show s ≡ prints (shown c e v) s
      → ShowsWaiting show v e s
  shown-Waiting show v e s printed = elim (Bool-cases (bytes_eq e v)) [
    | inl same ↦
        let equal = eq_of_bytes_eq e v same in inl (sym equal, ground (arith, printed, same, equal))
    | inr other ↦
        inr
          ((λ equal. ground (arith, other, bytes_eq_refl v, equal)), ground (arith, printed, other))
  ]

  -- With memory, if a line of printable characters is written as the new value of a setting that had such
  -- a line, the setting is shown as the new line, with a star unless it is the same; and if then a commit
  -- succeeds of a category, other than network, with this setting, the setting is shown as the new line
  -- without a star.
  pub change_commit_show :
      (is_os : IsOs c.os) (dir_base v e : List ℕ) (services : List Service)
      (settings : List (Component × Property)) (s : Admin F)
      → Has k p settings
      → IsLine v
      → IsLine e
      → c.os.open_read s.files (setting_file category false k p) ≡ some e
      → (changed v s).0 ≡ returns tt
      → (committed services settings (changed v s).1).0 ≡ returns tt
      → ShowsWaiting (property_show c category k p) v e (changed v s).1
        × ShowsWaiting (admin_property_show c dir_base category k p) v e (changed v s).1
        × (property_show c category k p (committed services settings (changed v s).1).1
            ≡ prints v (committed services settings (changed v s).1).1)
        × (admin_property_show c dir_base category k p
              (committed services settings (changed v s).1).1
            ≡ prints v (committed services settings (changed v s).1).1)
  change_commit_show is_os dir_base v e services settings s has lv le at_e written done =
      let s' = (changed v s).1 in
      let s'' = (committed services settings s').1 in
      let staged = changed-staged is_os v s written in
      let kept =
        write-other c is_os (setting_file category false k p) (setting_file category true k p) v s
          (counts-ne-staged k p)
        ∙ at_e in
      let (_, copied, still, _, _, _) =
        commit_lem c services category settings s' is_os (setting_file category true k p)
          (λ k' p'. staged-ne-counts k' p') done in
      let counts = Has-copied settings has copied ∙ staged in
      (
        shown-Waiting (property_show c category k p) v e s' (show_lem s' lv le staged kept),
        shown-Waiting (admin_property_show c dir_base category k p) v e s'
            (admin_show_lem dir_base s' lv le staged kept),
        show_lem s'' lv lv (still ∙ staged) counts ∙ ap (λ w. prints w s'') (shown_same v),
        admin_show_lem dir_base s'' lv lv (still ∙ staged) counts
            ∙ ap (λ w. prints w s'') (shown_same v),
      )
