-- ===== src/Usd/Schedule/Create.antt =====
-- `schedule_entry_create`: what the pool and the scheduler hold after it.
use native.Mathlib.Decide.{ℕ_discrete}
use usched.Base.{
  ◌==◌, ℕ, zero, suc, ◌+◌, ◌≤◌, ◌<◌, ◌≡◌, ◌≢◌, Bool, true, List, none, some, if◌then◌else◌, ok, err,
  arith, Status, Outcome-cases, Option-cases, Errno, inl, inr, length,
}
use usched.Common.Config.{u32}
use usched.Common.Entry.{Entry}
use usched.Common.Entry.Signature.{entry_check_signature, entry_update_signature, check-update}
use usched.Usd.Libs.{Cll, Psched, IsCll, IsPsched}
use usched.Usd.Runtime.{Rund}
use usched.Usd.Index.{index_entry_create, subj_string}
use usched.Usd.Schedule.{unique_id, install, stamped, schedule_entry_create}

module _ {P S : Type 0} (cll : Cll P) (psched : Psched S) (alloc : ℕ → Bool) where
  unique_id_fresh :
      (clock : ℕ → ℕ) (fuel k : ℕ) (r : Rund P S) (e e' : Entry)
      → unique_id cll psched alloc clock fuel k r e ≡ some (e', ok tt)
      → (e'.id ≢ 0) × (cll.search r.apool e'.id ≡ none)
  unfolding unique_id
  unique_id_fresh clock zero k r e e' h = cc
  unique_id_fresh clock (suc fuel) k r e e' h =
      ground
        (arith, unique_id_fresh clock fuel (suc k) r (index_entry_create alloc e (clock k)).0 e')

  -- The id that a clock reading gives does not depend on the id before.
  index_again :
      (e : Entry) (c d : ℕ)
      → (index_entry_create alloc (index_entry_create alloc e c).0 d).0.id ≡ (
          if alloc (length (subj_string e) + 1 + 80 + 1)
          then (index_entry_create alloc e d).0.id
          else e.id)
  unfolding index_entry_create
  index_again e c d = ground arith

  index_status :
      (e : Entry) (c : ℕ) → ((n : ℕ) → alloc n ≡ true) → (index_entry_create alloc e c).1 ≡ ok tt
  unfolding index_entry_create
  index_status e c room = rw (room (length (subj_string e) + 1 + 80 + 1))

  unique_id_returns :
      (clock : ℕ → ℕ) (fuel k j : ℕ) (r : Rund P S) (e : Entry)
      → ((n : ℕ) → alloc n ≡ true)
      → k ≤ j
      → j < k + fuel
      → (index_entry_create alloc e (clock j)).0.id ≢ 0
      → cll.search r.apool (index_entry_create alloc e (clock j)).0.id ≡ none
      → unique_id cll psched alloc clock fuel k r e ≢ none
  unfolding unique_id
  unique_id_returns clock zero k j r e room low high nonzero free = absurd (omega arith)
  unique_id_returns clock (suc fuel) k j r e room low high nonzero free =
      let e' = (index_entry_create alloc e (clock k)).0 in
      elim (ℕ_discrete k j) [
        | yes same ↦ ground (arith, same, index_status e (clock k) room)
        | no other ↦
            let again : (index_entry_create alloc e' (clock j)).0.id
                ≡ (index_entry_create alloc e (clock j)).0.id =
              rw (index_again e (clock k) (clock j), room (length (subj_string e) + 1 + 80 + 1)) in
            ground (
              arith,
              index_status e (clock k) room,
              again,
              unique_id_returns clock fuel (suc k) j r e' room (omega arith) (omega arith)
                  (rw again nonzero) (rw again free),
            )
      ]

  -- What a successful creation leaves behind.
  pub record IsInstalled (blake2s : List ℕ → List ℕ) (r r' : Rund P S) (e : Entry) : Type 0 where
    pub nonzero : e.id ≢ 0
    pub was_free : cll.search r.apool e.id ≡ none
    pub search :
        (id : ℕ) → cll.search r'.apool id ≡ (if e.id == id then some e else cll.search r.apool id)
    pub armed : psched.search r'.psched e.psched_id ≡ some (e.trigger, e.step, e.expire)
    pub signed : entry_check_signature blake2s e ≡ true

  module _ (is_cll : IsCll cll) (is_psched : IsPsched psched) (blake2s : List ℕ → List ℕ) where
    install_lem :
        (r r' : Rund P S) (e e' : Entry)
        → e.id ≢ 0
        → cll.search r.apool e.id ≡ none
        → entry_check_signature blake2s e ≡ true
        → install cll psched alloc r e ≡ (r', e', ok tt)
        → IsInstalled blake2s r r' e'
    unfolding install entry_check_signature
    install_lem r r' e e' nonzero free signed h =
        elim (Outcome-cases (psched.arm r.psched e.trigger e.step e.expire)) [
          | inr (x, failed) ↦ ground (arith, failed)
          | inl ((id, s), arms) ↦
              elim (Outcome-cases (cll.insert r.apool (record e { psched_id = id }))) [
                | inr (x, failed) ↦ elim (Outcome-cases (psched.disarm s id)) [
                  | inr (y, e1) ↦ ground arith
                  | inl (y, e1) ↦ ground arith
                ]
                | inl (p, inserts) ↦
                    let armed = record e { psched_id = id } in
                    let found = is_cll.search-insert r.apool p armed in
                    record {
                      nonzero = ground arith;
                      was_free = ground arith;
                      search = λ k. ground (arith, found k inserts);
                      armed = ground (
                        arith,
                        is_psched.search-arm r.psched s e.trigger e.step e.expire id arms,
                      );
                      signed = ground arith;
                    }
              ]
        ]

    -- With a pool and a scheduler that keep their laws: a creation that succeeds gives the entry an id that is not 0 and was not in the pool, puts the
    -- entry under it, leaves all other ids as they were, arms a timer with its times, and signs it.
    pub create_installs :
        (clock : ℕ → ℕ) (fuel now : ℕ) (r r' : Rund P S) (e e' : Entry)
        → schedule_entry_create cll psched alloc blake2s clock fuel now r e ≡ some (r', e', ok tt)
        → IsInstalled blake2s r r' e'
    unfolding schedule_entry_create entry_update_signature
    create_installs clock fuel now r r' e e' h =
        elim (Option-cases (unique_id cll psched alloc clock fuel 0 r e)) [
          | inl out ↦ ground (arith, out)
          | inr ((e1, err x), failed) ↦ ground (arith, failed)
          | inr ((e1, ok done), unique) ↦
              let (nonzero, free) = unique_id_fresh clock fuel 0 r e e1 unique in
              install_lem r r' (stamped cll psched alloc blake2s now e1) e' nonzero free
                (check-update blake2s (record e1 { create_time = u32 now }))
                (ground (arith, unique))
        ]

  module _ (blake2s : List ℕ → List ℕ) where
    -- A creation that fails leaves the pool and the runtime's flags as they were.
    create_fails :
        (clock : ℕ → ℕ) (fuel now : ℕ) (r r' : Rund P S) (e e' : Entry) (x : Errno)
        → schedule_entry_create cll psched alloc blake2s clock fuel now r e ≡ some (r', e', err x)
        → (r'.apool ≡ r.apool) × (r'.flags ≡ r.flags)
    unfolding schedule_entry_create install
    create_fails clock fuel now r r' e e' x h = ground arith

    -- The search for an id ends: if memory can be had, it takes no more rounds than there are clock
    -- readings up to the first one that gives a free id other than 0.
    pub create_returns :
        (clock : ℕ → ℕ) (fuel now j : ℕ) (r : Rund P S) (e : Entry)
        → ((n : ℕ) → alloc n ≡ true)
        → j < fuel
        → (index_entry_create alloc e (clock j)).0.id ≢ 0
        → cll.search r.apool (index_entry_create alloc e (clock j)).0.id ≡ none
        → schedule_entry_create cll psched alloc blake2s clock fuel now r e ≢ none
    unfolding schedule_entry_create
    create_returns clock fuel now j r e room in_time nonzero free =
        ground (
          arith,
          unique_id_returns clock fuel 0 j r e room (omega arith) (omega arith) nonzero free,
        )

-- What a creation leaves alone: whose entry it is, and what it is about.
abbrev pub SameRequest : Entry → Entry → Type 0
SameRequest e e' =
    (e'.uid ≡ e.uid)
    × (e'.gid ≡ e.gid)
    × (e'.flags ≡ e.flags)
    × (e'.subj ≡ e.subj)
    × (e'.trigger ≡ e.trigger)

module _ {P S : Type 0} (cll : Cll P) (psched : Psched S) (alloc : ℕ → Bool) where
  index_keeps : (e : Entry) (c : ℕ) → SameRequest e (index_entry_create alloc e c).0
  unfolding index_entry_create
  index_keeps e c = ground arith

  unique_id_keeps :
      (clock : ℕ → ℕ) (fuel k : ℕ) (r : Rund P S) (e e' : Entry) (st : Status)
      → unique_id cll psched alloc clock fuel k r e ≡ some (e', st)
      → SameRequest e e'
  unfolding unique_id
  unique_id_keeps clock zero k r e e' st h = cc
  unique_id_keeps clock (suc fuel) k r e e' st h = ground (
    arith,
    index_keeps e (clock k),
    unique_id_keeps clock fuel (suc k) r (index_entry_create alloc e (clock k)).0 e' st,
  )

  install_keeps : (r : Rund P S) (e : Entry) → SameRequest e (install cll psched alloc r e).1
  unfolding install
  install_keeps r e = ground arith

  pub create_keeps :
      (blake2s : List ℕ → List ℕ) (clock : ℕ → ℕ) (fuel now : ℕ) (r : Rund P S) (e : Entry)
      (out : Rund P S × Entry × Status)
      → schedule_entry_create cll psched alloc blake2s clock fuel now r e ≡ some out
      → SameRequest e out.1
  unfolding schedule_entry_create entry_update_signature
  create_keeps blake2s clock fuel now r e out h =
      elim (Option-cases (unique_id cll psched alloc clock fuel 0 r e)) [
        | inl none_left ↦ absurd (ground (arith, none_left))
        | inr ((e1, err x), failed) ↦
            ground (arith, failed, unique_id_keeps clock fuel 0 r e e1 (err x) failed)
        | inr ((e1, ok done), unique) ↦ ground (
          arith,
          unique,
          unique_id_keeps clock fuel 0 r e e1 (ok done) unique,
          install_keeps r (stamped cll psched alloc blake2s now e1),
        )
      ]
