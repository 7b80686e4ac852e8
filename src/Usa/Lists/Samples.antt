-- ===== src/Usa/Lists/Samples.antt =====
-- A list of lines as a list that does not sort.
use usched.Base.{
  ℕ, ◌≡◌, Bool, true, false, List, [], ◌∷◌, some, arith, Bool-cases, inl, inr, if◌then◌else◌, ◌||◌,
}
use mathlib.Core.List.{Mem, Perm, not-mem-nil, mem-cons_self, mem-cons_of_mem, mem_of_ne_of_mem}
use mathlib.Core.List.Perm
use mathlib.Core.Path.{subst}
use usched.Common.Entry.Signature.{bytes_eq, bytes_eq_refl, eq_of_bytes_eq}
use usched.Usa.Lists.{LineList, IsLineList}

abbrev pub found : List (List ℕ) → List ℕ → Bool
found [] x = false
found (y ∷ l) x = bytes_eq x y || found l x

abbrev without : List (List ℕ) → List ℕ → List (List ℕ)
without [] x = []
without (y ∷ l) x = let rest = without l x in if bytes_eq x y then l else y ∷ rest

abbrev pub plain_lists : LineList (List (List ℕ))
plain_lists = record {
  init = some [];
  set_config = λ l. l;
  insert = λ l x. some (x ∷ l);
  search = found;
  del = without;
  lines = λ l. l;
}

Mem-found : (l : List (List ℕ)) (x : List ℕ) → found l x ≡ true → Mem x l
Mem-found [] x h = cc
Mem-found (y ∷ l) x h = elim (Bool-cases (bytes_eq x y)) [
  | inl same ↦ subst (λ z. Mem x (z ∷ l)) (eq_of_bytes_eq x y same) mem-cons_self
  | inr other ↦ mem-cons_of_mem y (Mem-found l x (ground (arith, other)))
]

pub found-Mem : (l : List (List ℕ)) (x : List ℕ) → Mem x l → found l x ≡ true
found-Mem [] x m = absurd (not-mem-nil m)
found-Mem (y ∷ l) x m = elim (Bool-cases (bytes_eq x y)) [
  | inl same ↦ ground (arith, same)
  | inr other ↦
      let rest : found l x ≡ true =
        found-Mem l x (mem_of_ne_of_mem (λ e. ground (arith, other, bytes_eq_refl x)) m) in
      ground (arith, other, rest)
]

without-Perm : (l : List (List ℕ)) (x : List ℕ) → Mem x l → Perm (x ∷ without l x) l
without-Perm [] x m = absurd (not-mem-nil m)
without-Perm (y ∷ l) x m = elim (Bool-cases (bytes_eq x y)) [
  | inl same ↦ rw (same, eq_of_bytes_eq x y same) Perm.rfl
  | inr other ↦
      let rest =
        without-Perm l x (mem_of_ne_of_mem (λ e. ground (arith, other, bytes_eq_refl x)) m) in
      rw (other) (Perm.trans (Perm.swap y x (without l x)) (Perm.cons y rest))
]

pub plain_lists-IsLineList : IsLineList plain_lists
plain_lists-IsLineList = record {
  lines-init = λ l h. ground arith;
  lines-set_config = λ l h. ground arith;
  lines-insert = λ l l' x h. subst (λ z. Perm z (x ∷ l)) (ground arith) Perm.rfl;
  search_iff = λ l x. (Mem-found l x, found-Mem l x);
  lines-del = λ l x m. without-Perm l x m;
}
