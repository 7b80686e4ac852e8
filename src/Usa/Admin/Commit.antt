-- ===== src/Usa/Admin/Commit.antt =====
-- What a commit and a rollback copy, and what is left when a commit stops.
use usched.Base.{◌≡◌, ◌≢◌, refl, sym, ap, ◌∙◌, Bool, true, false, not, List, [], ◌∷◌, arith}
use usched.Common.Files.{Attempt, returns, fails, overruns, setting_file, IsOs}
use usched.Common.Settings.{Libc}
use usched.Usa.Words.{Category, Component, Property}
use usched.Usa.Words.Distinct.{Setting-discrete}
use usched.Usa.Admin.{Admin, M, then_do, ◌>>◌, copy_file, copy_files}

module _ {F : Type 0} where
  then_do-returns :
      (r : Attempt (Unit {0})) (s : Admin F) (next : M F (Unit {0}))
      → (then_do (r, s) (λ _. next)).0 ≡ returns tt
      → (r ≡ returns tt) × ((next s).0 ≡ returns tt)
  then_do-returns (returns tt) s next h = (refl, h)
  then_do-returns fails s next h = cc
  then_do-returns overruns s next h = cc

  >>-returns :
      (m next : M F (Unit {0})) (s : Admin F)
      → ((m >> next) s).0 ≡ returns tt
      → ((m s).0 ≡ returns tt) × ((next (m s).1).0 ≡ returns tt)
  >>-returns m next s h = then_do-returns (m s).0 (m s).1 next h

  then_do-files :
      (r : Attempt (Unit {0})) (s : Admin F) (next : M F (Unit {0}))
      → r ≡ returns tt
      → (then_do (r, s) (λ _. next)).1.files ≡ (next s).1.files
  then_do-files (returns tt) s next h = refl
  then_do-files fails s next h = cc
  then_do-files overruns s next h = cc

  >>-files :
      (m next : M F (Unit {0})) (s : Admin F)
      → (m s).0 ≡ returns tt
      → ((m >> next) s).1.files ≡ (next (m s).1).1.files
  >>-files m next s h = then_do-files (m s).0 (m s).1 next h

module _ {F : Type 0} (c : Libc F) where
  -- Each of these settings has, in the second state, the value that counts (the one to be committed, if
  -- `back`) as in the first state the other one was.
  abbrev pub AreCopied :
      Category → (back : Bool) → List (Component × Property) → (f f' : F) → Type 0
  AreCopied category back [] f f' = Unit
  AreCopied category back ((k, p) ∷ settings) f f' =
      (c.os.open_read f' (setting_file category back k p)
        ≡ c.os.open_read f (setting_file category (not back) k p))
      × AreCopied category back settings f f'

  module _ (is_os : IsOs c.os) where
    staged-ne :
        (category : Category) (back : Bool) (k k' : Component) (p p' : Property)
        → setting_file category (not back) k p ≢ setting_file category back k' p'
    staged-ne category true k k' p p' = cc
    staged-ne category false k k' p p' = cc

    copy_file-source :
        (category : Category) (back : Bool) (k k' : Component) (p p' : Property) (s : Admin F)
        → c.os.open_read
            (copy_file c category back k p s).1.files
            (setting_file category (not back) k' p')
          ≡ c.os.open_read s.files (setting_file category (not back) k' p')
    copy_file-source category back k k' p p' s =
        is_os.read-cp_other s.files _ _ _ (staged-ne category back k' k p' p)

    copy_file-copied :
        (category : Category) (back : Bool) (k : Component) (p : Property) (s : Admin F)
        → (copy_file c category back k p s).0 ≡ returns tt
        → c.os.open_read (copy_file c category back k p s).1.files (setting_file category back k p)
          ≡ c.os.open_read s.files (setting_file category (not back) k p)
    copy_file-copied category back k p s done = ground (
      arith,
      is_os.read-cp s.files (setting_file category (not back) k p) (setting_file category back k p),
    )

    -- A setting that is copied already is so after another copy.
    copy_file-stays :
        (category : Category) (back : Bool) (k k' : Component) (p p' : Property) (s : Admin F)
        → c.os.open_read s.files (setting_file category back k p)
          ≡ c.os.open_read s.files (setting_file category (not back) k p)
        → (copy_file c category back k' p' s).0 ≡ returns tt
        → c.os.open_read
            (copy_file c category back k' p' s).1.files
            (setting_file category back k p)
          ≡ c.os.open_read s.files (setting_file category (not back) k p)
    copy_file-stays category back k k' p p' s h done = elim (Setting-discrete (k, p) (k', p')) [
      | yes same ↦ cc (copy_file-copied category back k' p' s done)
      | no other ↦ is_os.read-cp_other s.files _ _ _ (λ e. other (cc)) ∙ h
    ]

    copy_files-stays :
        (category : Category) (back : Bool) (settings : List (Component × Property)) (k : Component)
        (p : Property) (s : Admin F)
        → c.os.open_read s.files (setting_file category back k p)
          ≡ c.os.open_read s.files (setting_file category (not back) k p)
        → (copy_files c category back settings s).0 ≡ returns tt
        → c.os.open_read
            (copy_files c category back settings s).1.files
            (setting_file category back k p)
          ≡ c.os.open_read s.files (setting_file category (not back) k p)
    unfolding copy_files
    copy_files-stays category back [] k p s h done = h
    copy_files-stays category back ((k', p') ∷ settings) k p s h done =
        let s' = (copy_file c category back k' p' s).1 in
        let (copied, rest) =
          >>-returns (copy_file c category back k' p') (copy_files c category back settings) s
            done in
        let source = copy_file-source category back k' k p' p s in
        ap (λ f. c.os.open_read f (setting_file category back k p))
          (>>-files (copy_file c category back k' p') (copy_files c category back settings) s
            copied)
        ∙ copy_files-stays category back settings k p s'
            (copy_file-stays category back k k' p p' s h copied ∙ sym source) rest
        ∙ source

    AreCopied-source :
        (category : Category) (back : Bool) (settings : List (Component × Property)) (f g f' : F)
        → ((k : Component) (p : Property)
            → c.os.open_read g (setting_file category (not back) k p)
              ≡ c.os.open_read f (setting_file category (not back) k p))
        → AreCopied category back settings g f'
        → AreCopied category back settings f f'
    AreCopied-source category back [] f g f' same copied = tt
    AreCopied-source category back ((k, p) ∷ settings) f g f' same (here, copied) =
        (here ∙ same k p, AreCopied-source category back settings f g f' same copied)

    pub copy_files-AreCopied :
        (category : Category) (back : Bool) (settings : List (Component × Property)) (s : Admin F)
        → (copy_files c category back settings s).0 ≡ returns tt
        → AreCopied category back settings s.files (copy_files c category back settings s).1.files
    unfolding copy_files
    copy_files-AreCopied category back [] s done = tt
    copy_files-AreCopied category back ((k, p) ∷ settings) s done =
        let s' = (copy_file c category back k p s).1 in
        let (copied, rest) =
          >>-returns (copy_file c category back k p) (copy_files c category back settings) s done in
        let source = copy_file-source category back k k p p s in
        rw (>>-files (copy_file c category back k p) (copy_files c category back settings) s copied)
          (
            copy_files-stays category back settings k p s'
                  (copy_file-copied category back k p s copied ∙ sym source) rest
                ∙ source,
            AreCopied-source category back settings s.files s'.files _
                (λ k' p'. copy_file-source category back k k' p p' s)
                (copy_files-AreCopied category back settings s' rest),
          )

  pub copy_files-config :
      (category : Category) (back : Bool) (settings : List (Component × Property)) (s : Admin F)
      → (copy_files c category back settings s).1.config ≡ s.config
  unfolding copy_files
  copy_files-config category back [] s = refl
  copy_files-config category back ((k, p) ∷ settings) s =
      ground (arith, copy_files-config category back settings (copy_file c category back k p s).1)
