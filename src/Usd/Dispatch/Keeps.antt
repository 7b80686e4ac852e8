-- ===== src/Usd/Dispatch/Keeps.antt =====
-- Which entries a trigger leaves in the pool.
use usched.Base.{
  ℕ, zero, suc, ◌+◌, ◌≡◌, ◌≢◌, ◌∙◌, ap, Bool, true, refl, List, Option, none, some, Status, ok,
  arith, Outcome-cases, Bool-cases, inl, inr, if◌then◌else◌, leb, ltb,
}
use usched.Common.Config.{u32}
use usched.Common.Flag
use usched.Common.Entry.{Entry, entry_set_flag, entry_unset_flag}
use usched.Common.Entry.Flags.{has}
use usched.Common.Entry.Signature.{entry_check_signature}
use usched.Usd.Libs.{Cll, Psched, Calendar}
use usched.Usd.Runtime.{Rund, runtime_daemon_fatal}
use usched.Usd.Runtime.Fatal.{psched-fatal, apool-fatal}
use usched.Usd.Schedule.Update.{schedule_entry_update, SameEntry, update_same}
use usched.Usd.Dispatch.{
  distance, Message, ExecConfig, Dispatched, marked_invalid, is_fatal_errno, triggered, message_of,
  process, deliver, checked, entry_daemon_exec_dispatch,
}
use usched.Usd.Dispatch.Outcomes.{has-triggered}

module _ {P S R : Type 0} (psched : Psched S) (cal : Calendar R) where
  -- An entry whose timer is known is not given up by its update.
  update_live :
      (r : Rund P S) (e : Entry) (times : ℕ × ℕ × ℕ)
      → psched.search r.psched e.psched_id ≡ some times
      → (schedule_entry_update psched cal r e).2 ≢ ok 0
  unfolding schedule_entry_update
  update_live r e times h given_up = ground (arith, h, given_up)

-- The pool has the same entries as before, and the entry that was triggered is one of them still, with its
-- owner and its command.
pub record IsKept {P S : Type 0} (r : Rund P S) (e : Entry) (d : Dispatched P S) : Type 0 where
  pub pool : d.rund.apool ≡ r.apool
  pub kept : Entry
  pub stays : d.entry ≡ some kept
  pub same : SameEntry e kept

IsKept-after :
    {P S : Type 0} (r after : Rund P S) (e : Entry) (d : Dispatched P S)
    → after.apool ≡ r.apool
    → IsKept after e d
    → IsKept r e d
IsKept-after r after e d h k = record {
  pool = k.pool ∙ h;
  kept = k.kept;
  stays = k.stays;
  same = k.same;
}

triggered_same : (e : Entry) → SameEntry e (triggered e) × ((triggered e).psched_id ≡ e.psched_id)
unfolding triggered entry_set_flag entry_unset_flag
triggered_same e = ((refl, refl, refl, refl), refl)

invalid_same : (e : Entry) → SameEntry e (marked_invalid e)
unfolding marked_invalid entry_set_flag entry_unset_flag
invalid_same e = (refl, refl, refl, refl)

SameEntry-trans : (a b c : Entry) → SameEntry a b → SameEntry b c → SameEntry a c
SameEntry-trans a b c (i, u, g, p) (i', u', g', p') = (i' ∙ i, u' ∙ u, g' ∙ g, p' ∙ p)

IsKept-triggered :
    {P S : Type 0} (r : Rund P S) (e : Entry) (d : Dispatched P S)
    → IsKept r (triggered e) d
    → IsKept r e d
IsKept-triggered r e d k =
    let (same, id) = triggered_same e in
    record {
      pool = k.pool;
      kept = k.kept;
      stays = k.stays;
      same = SameEntry-trans e (triggered e) k.kept same k.same;
    }

module _ {P S R : Type 0} (cll : Cll P) (psched : Psched S) (cal : Calendar R) (alloc : ℕ → Bool)
    (blake2s : List ℕ → List ℕ) (config : ExecConfig) (send : Message → Status) where
  process_keeps :
      (r : Rund P S) (e : Entry) (m : Option Message) (times : ℕ × ℕ × ℕ)
      → psched.search r.psched e.psched_id ≡ some times
      → IsKept r e (process cll psched cal alloc blake2s config send r e m)
  unfolding process
  process_keeps r e m times h =
      let (pool, same) = update_same psched cal r e in
      let updated = schedule_entry_update psched cal r e in
      elim (Outcome-cases updated.2) [
        | inr (x, failed) ↦ record {
          pool = ground (arith, failed, pool, apool-fatal updated.0);
          kept = updated.1;
          stays = ground (arith, failed);
          same = same;
        }
        | inl (zero, done) ↦ absurd (update_live psched cal r e times h done)
        | inl (suc n, done) ↦ record {
          pool = ground (arith, done, pool);
          kept = updated.1;
          stays = ground (arith, done);
          same = same;
        }
      ]

  unchanged :
      (r : Rund P S) (e kept : Entry) (d : Dispatched P S)
      → d ≡ record { rund = r; entry = some kept; sent = none }
      → SameEntry e kept
      → IsKept r e d
  unchanged r e kept d h same = record {
    pool = ap (λ z. z.rund.apool) h;
    kept = kept;
    stays = ap (λ z. z.entry) h;
    same = same;
  }

  deliver_keeps :
      (r : Rund P S) (e : Entry) (times : ℕ × ℕ × ℕ)
      → psched.search r.psched e.psched_id ≡ some times
      → IsKept r e (deliver cll psched cal alloc blake2s config send r e)
  unfolding deliver
  deliver_keeps r e times h = elim (Outcome-cases (send (message_of alloc e))) [
    | inl (done, taken) ↦
        rw (deliver, taken) (process_keeps r e (some (message_of alloc e)) times h)
    | inr (x, refused) ↦
        let after = if is_fatal_errno x then runtime_daemon_fatal r else r in
        let same_psched : after.psched ≡ r.psched =
          ground (arith, psched-fatal r, Bool-cases (is_fatal_errno x)) in
        let same_pool : after.apool ≡ r.apool =
          ground (arith, apool-fatal r, Bool-cases (is_fatal_errno x)) in
        let still = ap (λ s. psched.search s e.psched_id) same_psched ∙ h in
        rw (deliver, refused)
          (IsKept-after r after e _ same_pool (process_keeps after e none times still))
  ]

  checked_keeps :
      (r : Rund P S) (e : Entry) (times : ℕ × ℕ × ℕ)
      → psched.search r.psched e.psched_id ≡ some times
      → has e Flag.authorized ≡ true
      → IsKept r e (checked cll psched cal alloc blake2s config send r e)
  unfolding checked
  checked_keeps r e times h allowed =
      let long = ltb config.msg_size ((message_of alloc e).cmd_len + 24 + 1) in
      elim (Bool-cases (has e Flag.invalid)) [
        | inl set ↦ rw (allowed, set) (unchanged r e e _ refl (refl, refl, refl, refl))
        | inr clear ↦ elim (Bool-cases (entry_check_signature blake2s e)) [
          | inr bad ↦
              rw (allowed, clear, bad) (unchanged r e (marked_invalid e) _ refl (invalid_same e))
          | inl good ↦ elim (Bool-cases long) [
            | inl too_long ↦
                rw (allowed, clear, good, too_long)
                  (unchanged r e (marked_invalid e) _ refl (invalid_same e))
            | inr fits ↦ rw (allowed, clear, good, fits) (deliver_keeps r e times h)
          ]
        ]
      ]

  -- A trigger does not take an entry out of the pool that is authorized and whose timer is known to the
  -- scheduler, whatever fails on the way: the pool has the same entries as before, and the entry its id,
  -- its owner and its command.
  pub dispatch_keeps :
      (now : ℕ) (r : Rund P S) (e : Entry) (times : ℕ × ℕ × ℕ)
      → psched.search r.psched e.psched_id ≡ some times
      → has e Flag.authorized ≡ true
      → IsKept r e (entry_daemon_exec_dispatch cll psched cal alloc blake2s config send now r e)
  unfolding entry_daemon_exec_dispatch
  dispatch_keeps now r e times h allowed =
      let late = leb config.delta_noexec (u32 (distance now (triggered e).trigger)) in
      let (same, id) = triggered_same e in
      let still = ap (psched.search r.psched) id ∙ h in
      let granted : has (triggered e) Flag.authorized ≡ true =
        ground (arith, has-triggered e Flag.authorized, allowed) in
      elim (Bool-cases late) [
        | inl skipped ↦
            rw skipped (IsKept-triggered r e _ (process_keeps r (triggered e) none times still))
        | inr runs ↦ elim (Bool-cases (alloc config.msg_size)) [
          | inl room ↦
              rw (runs, room)
                (IsKept-triggered r e _ (checked_keeps r (triggered e) times still granted))
          | inr none_left ↦
              rw (runs, none_left)
                record { pool = apool-fatal r; kept = triggered e; stays = refl; same = same }
        ]
      ]
