-- ===== src/Usa/Lists/Shown.antt =====
-- What is printed of a list: its lines with commas between them.
use usched.Base.{
  ℕ, suc, ◌+◌, ◌-◌, ◌≡◌, ◌∙◌, refl, sym, ap, Bool, true, List, [], ◌∷◌, ◌++◌, none, some, length,
  take, arith,
}
use mathlib.Core.List.{append_assoc, append-nil}
use usched.Common.Files.{returns}
use usched.Usa.Lists.{LineList, comma, list_output}

abbrev pub joined : List (List ℕ) → List ℕ
joined [] = []
joined (x ∷ []) = x
joined (x ∷ y ∷ lines) = x ++ comma ∷ joined (y ∷ lines)

abbrev commas : List (List ℕ) → List ℕ
commas [] = []
commas (x ∷ lines) = x ++ comma ∷ commas lines

-- All but the last character.
abbrev shorter : List ℕ → List ℕ
shorter s = take (length s - 1) s

shorter-cons : (x z : ℕ) (zs : List ℕ) → shorter (x ∷ z ∷ zs) ≡ x ∷ shorter (z ∷ zs)
shorter-cons x z zs =
    let same : length (x ∷ z ∷ zs) - 1 ≡ suc (length (z ∷ zs) - 1) = omega arith in
    ap (λ n. take n (x ∷ z ∷ zs)) same

shorter-append :
    (xs : List ℕ) (b : ℕ) (ys : List ℕ) → shorter (xs ++ b ∷ ys) ≡ xs ++ shorter (b ∷ ys)
shorter-append [] b ys = refl
shorter-append (x ∷ []) b ys = shorter-cons x b ys
shorter-append (x ∷ z ∷ xs) b ys =
    shorter-cons x z (xs ++ b ∷ ys) ∙ ap (λ zs. x ∷ zs) (shorter-append (z ∷ xs) b ys)

shorter-commas :
    (x : List ℕ) (lines : List (List ℕ)) → shorter (commas (x ∷ lines)) ≡ joined (x ∷ lines)
shorter-commas x [] = shorter-append x comma [] ∙ append-nil x
shorter-commas x (y ∷ lines) =
    shorter-append x comma (commas (y ∷ lines))
    ∙ ap (λ zs. x ++ zs)
        (shorter-append (comma ∷ y) comma (commas lines)
          ∙ ap (λ zs. comma ∷ zs)
              (sym (shorter-append y comma (commas lines)) ∙ shorter-commas y lines))

module _ {L : Type 0} (lists : LineList L) (alloc : ℕ → Bool)
    (memory : (n : ℕ) → alloc n ≡ true) where
  output_lem :
      (output : List ℕ) (lines : List (List ℕ))
      → list_output lists alloc (some output) lines ≡ returns (shorter (output ++ commas lines))
  unfolding list_output
  output_lem output [] = rw (append-nil output) refl
  output_lem output (x ∷ lines) = rw (memory (length (output ++ (x ++ comma ∷ [])) + 1)) (
      output_lem (output ++ (x ++ comma ∷ [])) lines
      ∙ ap (λ zs. returns (shorter zs))
          (append_assoc output (x ++ comma ∷ []) (commas lines)
            ∙ ap (λ zs. output ++ zs) (append_assoc x (comma ∷ []) (commas lines))))

  pub list_output-joined :
      (lines : List (List ℕ)) → list_output lists alloc none lines ≡ returns (joined lines)
  unfolding list_output
  list_output-joined [] = rw (memory 1) refl
  list_output-joined (x ∷ lines) = rw (memory (length (x ++ comma ∷ []) + 1)) (
      output_lem (x ++ comma ∷ []) lines
      ∙ ap (λ zs. returns (shorter zs)) (append_assoc x (comma ∷ []) (commas lines))
      ∙ ap returns (shorter-commas x lines))
