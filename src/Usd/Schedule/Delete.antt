-- ===== src/Usd/Schedule/Delete.antt =====
-- `schedule_entry_ownership_delete_by_id` and `schedule_entry_disable`.
use native.Mathlib.Decide.{ℕ_discrete}
use usched.Base.{
  ℕ, ◌≡◌, ◌≢◌, ◌↔◌, ◌⊎◌, ◌∙◌, ap, Bool, true, false, not, ◌&&◌, Option, none, some, ◌==◌,
  if◌then◌else◌, ok, Outcome-cases, Option-cases, inl, inr, arith,
}
use usched.Common.Flag
use usched.Common.Entry.{Entry}
use usched.Common.Entry.Flags.{has}
use usched.Usd.Libs.{Cll, Psched, IsCll}
use usched.Usd.Runtime.{Rund, rund_has, fatal}
use usched.Usd.Runtime.Fatal.{apool-fatal, has-fatal}
use usched.Usd.Schedule.{schedule_entry_ownership_delete_by_id, schedule_entry_disable}

-- What may be deleted on behalf of a user: an entry of that user whose processing is finished and
-- which has a timer.
abbrev pub deletable : Option Entry → ℕ → Bool
deletable none uid = false
deletable (some e) uid = has e Flag.finish && ((e.uid == uid) && not (e.psched_id == 0))

module _ {P S : Type 0} (cll : Cll P) (psched : Psched S) where
  -- A deletion by id succeeds exactly if the pool has an entry with this id that belongs to the user,
  -- is finished and has a timer.
  delete-ok_iff :
      (r : Rund P S) (id uid : ℕ)
      → ((schedule_entry_ownership_delete_by_id cll psched r id uid).1 ≡ ok tt)
        ↔ (deletable (cll.search r.apool id) uid ≡ true)
  unfolding schedule_entry_ownership_delete_by_id
  delete-ok_iff r id uid = elim (Option-cases (cll.search r.apool id)) [
    | inl absent ↦ ground (arith, absent)
    | inr (e, there) ↦ ground (arith, there)
  ]

  -- A deletion that is not allowed changes nothing: neither the pool, nor the timers, nor the flags.
  delete_refused :
      (r : Rund P S) (id uid : ℕ)
      → deletable (cll.search r.apool id) uid ≡ false
      → (schedule_entry_ownership_delete_by_id cll psched r id uid).0 ≡ r
  unfolding schedule_entry_ownership_delete_by_id
  delete_refused r id uid refused = elim (Option-cases (cll.search r.apool id)) [
    | inl absent ↦ ground (arith, absent)
    | inr (e, there) ↦ ground (arith, there)
  ]

module _ {P S : Type 0} (cll : Cll P) (psched : Psched S) (is_cll : IsCll cll) where
  abbrev pub after_delete : Rund P S → ℕ → ℕ → Rund P S
  after_delete r id uid = (schedule_entry_ownership_delete_by_id cll psched r id uid).0

  -- With a pool that keeps its laws: after a deletion by id the pool has lost this entry, if it may be deleted, and nothing else.
  pub search-delete :
      (r : Rund P S) (id uid k : ℕ)
      → cll.search (after_delete r id uid).apool k ≡ (
          if deletable (cll.search r.apool id) uid && (id == k) then none else cll.search r.apool k)
  unfolding schedule_entry_ownership_delete_by_id
  search-delete r id uid k = elim (Option-cases (cll.search r.apool id)) [
    | inl absent ↦ ground (arith, absent)
    | inr (e, there) ↦
        ground (arith, there, is_cll.search-del r.apool e.id k, is_cll.search_id r.apool id e there)
  ]

  -- With a pool that keeps its laws: no request deletes the entry of another user, whatever id it names.
  pub delete_keeps_others :
      (r : Rund P S) (id uid k : ℕ) (e : Entry)
      → cll.search r.apool k ≡ some e
      → e.uid ≢ uid
      → cll.search (after_delete r id uid).apool k ≡ some e
  delete_keeps_others r id uid k e there foreign =
      search-delete r id uid k ∙ elim (ℕ_discrete id k) [
        | yes same ↦ ground (arith, there, ap (λ j. cll.search r.apool j) same)
        | no other ↦ ground (arith, there)
      ]

  -- With a pool that keeps its laws: an entry that is taken out of the pool is the one that was found there; it is gone, the other
  -- entries stay, and where its timer could not be disarmed the daemon is marked for a restart.
  disable_lem :
      (r r' : Rund P S) (id : ℕ) (e : Entry)
      → schedule_entry_disable cll psched r id ≡ (r', ok e)
      → (cll.search r.apool id ≡ some e)
        × ((k : ℕ) → cll.search r'.apool k ≡ (if id == k then none else cll.search r.apool k))
        × (((s : S) × (psched.disarm r.psched e.psched_id ≡ ok s) × (r'.psched ≡ s))
            ⊎ (rund_has r' fatal ≡ true))
  unfolding schedule_entry_disable
  disable_lem r r' id e h = elim (Option-cases (cll.search r.apool id)) [
    | inl absent ↦ ground (arith, absent)
    | inr (x, there) ↦
        let same_id = is_cll.search_id r.apool id x there in
        let popped = is_cll.pope_search r.apool x.id in
        let gone = λ (k : ℕ). is_cll.pope_del r.apool x.id k ∙ is_cll.search-del r.apool x.id k in
        elim (Outcome-cases (psched.disarm r.psched x.psched_id)) [
          | inl (s, disarmed) ↦ (
            ground (arith, there, popped, same_id),
            λ k. ground (arith, there, gone k, same_id),
            inl (s, ground (arith, there, popped, same_id), ground (arith, there, popped)),
          )
          | inr (y, failed) ↦ (
            ground (arith, there, popped, same_id, apool-fatal r),
            λ k. ground (arith, there, gone k, same_id, apool-fatal r),
            inr (ground (arith, there, popped, has-fatal r)),
          )
        ]
  ]
