-- ===== src/Common/Str/Replace.antt =====
-- `strreplall` against a description of it that runs over the text once.
use mathlib.Core.List.{append_assoc}
use usched.Base.{
  ℕ, zero, suc, ◌+◌, ◌-◌, ◌<◌, ◌≡◌, ◌∙◌, refl, sym, ap, Bool, true, false, ◌||◌, List, [], ◌∷◌,
  ◌++◌, Option, none, some, if◌then◌else◌, length, take, drop, length-append, length-drop,
  length-take, arith, Option-cases, Bool-cases, inl, inr,
}
use usched.Common.Str.{is_prefix, strstr, strrepl_generic, replace_rounds, strreplall}

-- Every occurrence of the needle that begins behind the one before is replaced; `skip` bytes of the
-- text belong to the last occurrence.
unfoldable pub substituted : (needle rcontent : List ℕ) → (skip : ℕ) → List ℕ → List ℕ
unfolding is_prefix
substituted needle rcontent skip [] = []
substituted needle rcontent (suc skip) (c ∷ s) = substituted needle rcontent skip s
substituted needle rcontent zero (c ∷ s) =
    let behind = substituted needle rcontent (length needle - 1) s in
    let next = substituted needle rcontent zero s in
    if is_prefix needle (c ∷ s) then rcontent ++ behind else c ∷ next

abbrev pub found : Option ℕ → Bool
found none = false
found (some k) = true

substituted-drop :
    (needle rcontent : List ℕ) (k : ℕ) (s : List ℕ)
    → substituted needle rcontent k s ≡ substituted needle rcontent 0 (drop k s)
unfolding substituted
substituted-drop needle rcontent zero s = refl
substituted-drop needle rcontent (suc k) [] = refl
substituted-drop needle rcontent (suc k) (c ∷ s) = substituted-drop needle rcontent k s

-- A text without the needle stays as it is.
substituted_absent :
    (x : ℕ) (n rcontent s : List ℕ) → strstr s (x ∷ n) ≡ none → substituted (x ∷ n) rcontent 0 s ≡ s
unfolding substituted strstr
substituted_absent x n rcontent [] h = refl
substituted_absent x n rcontent (c ∷ s) h =
    ground (arith, substituted_absent x n rcontent s, Option-cases (strstr s (x ∷ n)))

drop_cons : (m k c : ℕ) (s : List ℕ) → m ≡ suc k → drop m (c ∷ s) ≡ drop k s
drop_cons m k c s e = ap (λ j. drop j (c ∷ s)) e

-- Up to the first occurrence the text stays, and behind it the replacement goes on.
substituted_first :
    (x : ℕ) (n rcontent s : List ℕ) (k : ℕ)
    → strstr s (x ∷ n) ≡ some k
    → substituted (x ∷ n) rcontent 0 s
      ≡ take k s ++ (rcontent ++ substituted (x ∷ n) rcontent 0 (drop (k + suc (length n)) s))
unfolding substituted strstr
substituted_first x n rcontent [] k h = ground arith
substituted_first x n rcontent (c ∷ s) zero h =
    let skipped : drop (0 + suc (length n)) (c ∷ s) ≡ drop (length n) s =
      drop_cons (0 + suc (length n)) (length n) c s (omega arith) in
    let one_less : suc (length n) - 1 ≡ length n = omega arith in
    ground (
      arith,
      skipped,
      one_less,
      substituted-drop (x ∷ n) rcontent (length n) s,
      Option-cases (strstr s (x ∷ n)),
    )
substituted_first x n rcontent (c ∷ s) (suc k) h =
    let skipped : drop (suc k + suc (length n)) (c ∷ s) ≡ drop (k + suc (length n)) s =
      drop_cons (suc k + suc (length n)) (k + suc (length n)) c s (omega arith) in
    ground (arith, skipped, substituted_first x n rcontent s k, Option-cases (strstr s (x ∷ n)))

-- An occurrence lies inside the text.
strstr-le : (x : ℕ) (n s : List ℕ) (k : ℕ) → strstr s (x ∷ n) ≡ some k → k < length s
unfolding strstr is_prefix
strstr-le x n [] k h = ground arith
strstr-le x n (c ∷ s) k h = elim (Option-cases (strstr s (x ∷ n))) [
  | inl absent ↦ ground (arith, absent)
  | inr (j, there) ↦ ground (arith, there, strstr-le x n s j there)
]

take_past :
    (done rest : List ℕ) (k t : ℕ)
    → t ≡ length done + k
    → take t (done ++ rest) ≡ done ++ take k rest
take_past [] rest k t e = ap (λ n. take n rest) (omega (arith, e))
take_past (d ∷ done) rest k zero e = absurd (omega arith)
take_past (d ∷ done) rest k (suc t) e = ap (λ l. d ∷ l) (take_past done rest k t (omega arith))

drop_past :
    (done rest : List ℕ) (k t : ℕ) → t ≡ length done + k → drop t (done ++ rest) ≡ drop k rest
drop_past [] rest k t e = ap (λ n. drop n rest) (omega (arith, e))
drop_past (d ∷ done) rest k zero e = absurd (omega arith)
drop_past (d ∷ done) rest k (suc t) e = drop_past done rest k t (omega arith)

regroup : (a b c d : List ℕ) → a ++ (b ++ (c ++ d)) ≡ (a ++ (b ++ c)) ++ d
regroup a b c d = sym (append_assoc a (b ++ c) d ∙ ap (λ l. a ++ l) (append_assoc b c d))

module _ (alloc : ℕ → Bool) (room : (n : ℕ) → alloc n ≡ true) (x : ℕ) (n rcontent : List ℕ) where
  -- One replacement behind what was replaced before.
  generic_step :
      (done rest : List ℕ) (k : ℕ)
      → strstr rest (x ∷ n) ≡ some k
      → strrepl_generic alloc (done ++ rest) (x ∷ n) rcontent (length done)
        ≡ some (
          done ++ (take k rest ++ (rcontent ++ drop (k + suc (length n)) rest)),
          length done + k + length rcontent,
        )
  unfolding strrepl_generic
  generic_step done rest k h =
      let inside = strstr-le x n rest k h in
      let total = length-append {0} done rest in
      ground (
        arith,
        drop_past done rest 0 (length done) (omega arith),
        take_past done rest k (length done + k) refl,
        drop_past done rest (k + suc (length n)) (length done + k + suc (length n)) (omega arith),
        room (length (done ++ rest) - suc (length n) + length rcontent + 1),
        append_assoc done (take k rest) (rcontent ++ drop (k + suc (length n)) rest),
      )

  generic_stop :
      (done rest : List ℕ)
      → strstr rest (x ∷ n) ≡ none
      → strrepl_generic alloc (done ++ rest) (x ∷ n) rcontent (length done) ≡ none
  unfolding strrepl_generic
  generic_stop done rest h = ground (arith, drop_past done rest 0 (length done) (omega arith))

  rounds_lem :
      (fuel : ℕ) (replaced : Bool) (done rest : List ℕ)
      → length rest < fuel
      → replace_rounds alloc fuel replaced (done ++ rest) (x ∷ n) rcontent (length done)
        ≡ some
            (replaced || found (strstr rest (x ∷ n)), done ++ substituted (x ∷ n) rcontent 0 rest)
  unfolding replace_rounds
  rounds_lem zero replaced done rest h = absurd (omega arith)
  rounds_lem (suc fuel) replaced done rest h = elim (Option-cases (strstr rest (x ∷ n))) [
    | inl absent ↦
        ground (
          arith,
          absent,
          generic_stop done rest absent,
          substituted_absent x n rcontent rest absent,
        )
    | inr (k, there) ↦
        let inside = strstr-le x n rest k there in
        let head = take k rest ++ rcontent in
        let tail = drop (k + suc (length n)) rest in
        let moved : done ++ (take k rest ++ (rcontent ++ tail)) ≡ (done ++ head) ++ tail =
          regroup done (take k rest) rcontent tail in
        let start : length done + k + length rcontent ≡ length (done ++ head) = omega (
          arith,
          length-append {0} done head,
          length-append {0} (take k rest) rcontent,
          length-take k rest (omega arith),
        ) in
        let later =
          rounds_lem fuel true (done ++ head) tail
            (omega (arith, length-drop (k + suc (length n)) rest)) in
        let whole : (done ++ head) ++ substituted (x ∷ n) rcontent 0 tail
            ≡ done ++ substituted (x ∷ n) rcontent 0 rest =
          sym (regroup done (take k rest) rcontent (substituted (x ∷ n) rcontent 0 tail))
          ∙ ap (λ l. done ++ l) (sym (substituted_first x n rcontent rest k there)) in
        ground (arith, there, generic_step done rest k there, moved, start, later, whole)
  ]

  -- If memory can be had and the needle is not empty, the loop ends, and the result is the text in which
  -- every occurrence is replaced, found in one run over it; it is NULL if the needle does not occur.
  pub strreplall_lem :
      (haystack : List ℕ)
      → strreplall alloc haystack (x ∷ n) rcontent ≡ (
          if found (strstr haystack (x ∷ n))
          then some (substituted (x ∷ n) rcontent 0 haystack)
          else none)
  unfolding strreplall
  strreplall_lem haystack = ground (
    arith,
    rounds_lem (suc (length haystack)) false [] haystack (omega arith),
    Bool-cases (found (strstr haystack (x ∷ n))),
  )
