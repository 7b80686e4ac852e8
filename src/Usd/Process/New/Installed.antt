-- ===== src/Usd/Process/New/Installed.antt =====
-- What a request for a new entry leaves in the pool.
use mathlib.Core.Path.{subst}
use usched.Base.{
  ℕ, ◌≡◌, ◌≢◌, ◌∙◌, Bool, List, none, some, ◌==◌, if◌then◌else◌, Status, ok, err, Errno, arith,
  Outcome-cases, Option-cases, inl, inr,
}
use usched.Common.Entry.{Entry, entry_set_subj, entry_unset_payload, entry_set_payload}
use usched.Common.Entry.Payload.{Cipher, entry_payload_encrypt}
use usched.Usd.Libs.{Cll, IsCll, Psched, IsPsched}
use usched.Usd.Runtime.{Rund, set_rund_flag, serialize}
use usched.Usd.Schedule.{schedule_entry_create}
use usched.Usd.Schedule.Create.{IsInstalled, create_installs, SameRequest, create_keeps}
use usched.Usd.Process.{be_bytes, sealed}
use usched.Usd.Process.New.{
  replied, freed_twice, give_up, deliver_id, process_recv_update_op_new, payload_text,
}

SameRequest-trans : (a b c : Entry) → SameRequest a b → SameRequest b c → SameRequest a c
SameRequest-trans a b c h k = (k.0 ∙ h.0, k.1 ∙ h.1, k.2 ∙ h.2, k.3 ∙ h.3, k.4 ∙ h.4)

unset_same :
    (named created : Entry)
    → SameRequest (entry_unset_payload named) created
    → SameRequest named created
unfolding entry_unset_payload
unset_same named created h = h

module _ {P S : Type 0} (cll : Cll P) (psched : Psched S) (alloc : ℕ → Bool) (fresh : ℕ → List ℕ)
    (cipher : Cipher) (garbage : ℕ → ℕ) (blake2s : List ℕ → List ℕ) where
  -- If the entry cannot be scheduled, then it is freed by the operation and by its caller.
  pub new_freed_twice :
      (clock : ℕ → ℕ) (fuel now : ℕ) (r r' : Rund P S) (entry created : Entry) (x : Errno)
      → (entry_set_subj alloc entry (payload_text entry) entry.psize).1 ≡ ok tt
      → schedule_entry_create cll psched alloc blake2s clock fuel now r
          (entry_unset_payload (entry_set_subj alloc entry (payload_text entry) entry.psize).0)
        ≡ some (r', created, err x)
      → process_recv_update_op_new cll psched alloc fresh cipher garbage blake2s clock fuel now r
          entry
        ≡ some (r', freed_twice x)
  unfolding process_recv_update_op_new
  new_freed_twice clock fuel now r r' entry created x named failed = ground (arith, named, failed)

  -- The entry of the reply: as it was, without its payload.
  record IsSent (before e : Entry) : Type 0 where
    id : e.id ≡ before.id
    payload : e.payload ≡ none
    same : SameRequest before e

  sealed-IsSent :
      (crafted e : Entry) (reply : List ℕ)
      → sealed cll psched alloc fresh cipher garbage crafted ≡ ok (e, reply)
      → IsSent crafted e
  unfolding sealed entry_payload_encrypt
  sealed-IsSent crafted e reply h = record {
    id = ground arith;
    payload = ground arith;
    same = ground arith;
  }

  give_up_silent :
      (r r' : Rund P S) (entry e : Entry) (x : Errno) (reply : List ℕ)
      → give_up cll psched alloc fresh cipher garbage blake2s r entry x ≢ (r', replied e reply)
  unfolding give_up
  give_up_silent r r' entry e x reply h = ground arith

  with_id : Entry → Entry × Status
  with_id entry = entry_set_payload alloc entry (be_bytes 8 entry.id) 8

  with_id-same :
      (entry : Entry) → ((with_id entry).0.id ≡ entry.id) × SameRequest entry (with_id entry).0
  unfolding with_id entry_set_payload
  with_id-same entry = ground arith

  IsSent-trans : (a b c : Entry) → b.id ≡ a.id → SameRequest a b → IsSent b c → IsSent a c
  IsSent-trans a b c id same last = record {
    id = last.id ∙ id;
    payload = last.payload;
    same = SameRequest-trans a b c same last.same;
  }

  deliver-IsSent :
      (r r' : Rund P S) (entry e : Entry) (reply : List ℕ)
      → deliver_id cll psched alloc fresh cipher garbage blake2s r entry ≡ (r', replied e reply)
      → (r'.apool ≡ cll.store r.apool e) × IsSent entry e
  unfolding deliver_id with_id
  deliver-IsSent r r' entry e reply h =
      let (id, same) = with_id-same entry in
      elim (Outcome-cases (with_id entry).1) [
        | inr (x, failed) ↦ absurd (give_up_silent r r' entry e x reply (ground (arith, failed)))
        | inl (done, set) ↦
            elim (Outcome-cases (sealed cll psched alloc fresh cipher garbage (with_id entry).0)) [
              | inr (x, failed) ↦
                  absurd (give_up_silent r r' entry e x reply (ground (arith, set, failed)))
              | inl ((sent, bytes), closed) ↦
                  let is_sent = sealed-IsSent (with_id entry).0 sent bytes closed in
                  let same_entry : sent ≡ e = ground (arith, set, closed) in
                  (
                    ground (arith, set, closed),
                    subst (IsSent entry) same_entry
                        (IsSent-trans entry (with_id entry).0 sent id same is_sent),
                  )
            ]
      ]

  -- The pool of `r'` has the entry, which keeps the request, under a new id, and else what `r` has.
  pub record IsScheduled (r r' : Rund P S) (request e : Entry) : Type 0 where
    pub nonzero : e.id ≢ 0
    pub was_free : cll.search r.apool e.id ≡ none
    pub search :
        (k : ℕ) → cll.search r'.apool k ≡ (if e.id == k then some e else cll.search r.apool k)
    pub same : SameRequest request e

  module _ (is_cll : IsCll cll) (is_psched : IsPsched psched) where
    stored :
        (r r1 : Rund P S) (created e : Entry) (k : ℕ)
        → IsInstalled cll psched alloc blake2s r r1 created
        → e.id ≡ created.id
        → cll.search (cll.store r1.apool e) k ≡ (if e.id == k then some e else cll.search r.apool k)
    stored r r1 created e k installed same =
        ground (arith, is_cll.search-store r1.apool e k, installed.search k)

    delivered :
        (r r1 r' : Rund P S) (named created e : Entry) (reply : List ℕ)
        → IsInstalled cll psched alloc blake2s r r1 created
        → SameRequest named created
        → deliver_id cll psched alloc fresh cipher garbage blake2s
            (set_rund_flag r1 serialize)
            created
          ≡ (r', replied e reply)
        → IsScheduled r r' named e
    delivered r r1 r' named created e reply installed same h =
        let (pool, sent) = deliver-IsSent (set_rund_flag r1 serialize) r' created e reply h in
        record {
          nonzero = rw sent.id installed.nonzero;
          was_free = rw sent.id installed.was_free;
          search = λ k. rw pool (stored r r1 created e k installed sent.id);
          same = SameRequest-trans named created e same sent.same;
        }

    -- With a pool and a scheduler that keep their laws: if a request for a new entry is replied, then the
    -- entry of the reply is in the pool under an id that is not 0 and was free, it belongs to the user and
    -- group of the request and has the subject that the payload names, and all other ids are as they
    -- were.
    pub new_installs :
        (clock : ℕ → ℕ) (fuel now : ℕ) (r r' : Rund P S) (entry e : Entry) (reply : List ℕ)
        → process_recv_update_op_new cll psched alloc fresh cipher garbage blake2s clock fuel now r
            entry
          ≡ some (r', replied e reply)
        → IsScheduled r r' (entry_set_subj alloc entry (payload_text entry) entry.psize).0 e
    unfolding process_recv_update_op_new
    new_installs clock fuel now r r' entry e reply h =
        let (named, status) = entry_set_subj alloc entry (payload_text entry) entry.psize in
        elim (Outcome-cases status) [
          | inr (x, failed) ↦ absurd (ground (arith, failed))
          | inl (done, set) ↦
              elim (Option-cases (
                schedule_entry_create cll psched alloc blake2s clock fuel now r
                  (entry_unset_payload named))) [
                    | inl out_of_fuel ↦ absurd (ground (arith, set, out_of_fuel))
                    | inr ((r1, created, err x), failed) ↦ absurd (ground (arith, set, failed))
                    | inr ((r1, created, ok made), success) ↦
                        delivered r r1 r' named created e reply
                          (create_installs cll psched alloc is_cll is_psched blake2s clock fuel now
                            r r1 (entry_unset_payload named) created success)
                          (unset_same named created (
                            create_keeps cll psched alloc blake2s clock fuel now r
                              (entry_unset_payload named) (r1, created, ok made) success))
                          (ground (arith, set, success))
                  ]
        ]
