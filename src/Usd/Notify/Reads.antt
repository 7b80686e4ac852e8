-- ===== src/Usd/Notify/Reads.antt =====
-- The end of a read, as one move of its connection.

use usched.Base.{
  ℕ, ◌^◌, ◌<◌, ◌≡◌, refl, true, List, Option, none, some, inl, inr, ◌==◌, length, arith,
  Outcome-cases, Option-cases, Bool-cases,
}
use usched.Common.Entry.{Entry, Crypto}
use usched.Common.Entry.Payload.{Cipher}
use usched.Usd.Libs.{Cll, IsCll, Psched}
use usched.Usd.Authorize.{Peer, AuthConfig}
use usched.Usd.Process.New.{replied, dropped, freed_twice}
use usched.Usd.Process.Stages.{process_daemon_recv_create, process_daemon_recv_update}
use usched.Usd.Process.Stages.Received.{recv_create-IsOpened}
use usched.Usd.Notify.{
  Server, Answers, Transfer, complete, incomplete, failed, Next, reads, idle, discard, read_create,
  read_replied, read_update, read_done, notify_read,
}
use usched.Usd.Notify.Connections.{header, payload, stage_of}
use usched.Usd.Notify.Local.{IsMove, discard-IsMove, read_state-IsMove}
use usched.Usd.Notify.Moves.{
  rebased, returned, getting_stuck, read_replied-IsMove, popped_here, may_end, may_stick,
}

module _ {P S : Type 0} (cll : Cll P) (psched : Psched S) (fresh : ℕ → List ℕ) (cipher : Cipher)
    (garbage : ℕ → ℕ) (blake2s : List ℕ → List ℕ) (host : List ℕ → ℕ) (no_crypto : Crypto)
    (sizeof_entry msg_size : ℕ) (config : AuthConfig) (is_cll : IsCll cll) (answers : Answers)
    (clock : ℕ → ℕ) (fuel now fd : ℕ) (peer : Peer) where
  abbrev after : Server P S → Option Entry → List ℕ → Option (Server P S × Next)
  after s o bytes =
      read_done cll psched fresh cipher garbage blake2s host no_crypto sizeof_entry msg_size config
        answers clock fuel now s fd peer bytes o

  abbrev first_stage : Server P S → List ℕ → Server P S × Next
  first_stage s bytes =
      read_create cll psched fresh cipher garbage blake2s host no_crypto sizeof_entry msg_size
        config answers s fd peer bytes

  read_create-IsMove :
      (s : Server P S) (bytes : List ℕ)
      → fd < 2 ^ 31
      → cll.search s.rpool fd ≡ none
      → IsMove cll s.rpool header fd (first_stage s bytes).0 (first_stage s bytes).1
  unfolding read_create
  read_create-IsMove s bytes small gone =
      let ends = discard-IsMove cll is_cll answers s.rpool header s fd refl (λ k apart. refl) in
      elim (Outcome-cases (
        process_daemon_recv_create host no_crypto answers.alloc sizeof_entry msg_size fd peer
          bytes)) [
            | inr (x, refused) ↦ rw (refused, read_create) ends
            | inl (e, created) ↦ elim (Outcome-cases (cll.insert s.rpool e)) [
              | inr (x, full) ↦ rw (created, read_create, full) ends
              | inl (p, ins) ↦
                  let opened =
                    recv_create-IsOpened host no_crypto answers.alloc sizeof_entry msg_size fd peer
                      bytes e created in
                  rw (created, read_create, ins)
                    (read_state-IsMove cll is_cll answers s p fd e (omega (arith, opened.id)) ins)
            ]
          ]

  read_done-IsMove :
      (s s' : Server P S) (next : Next) (bytes : List ℕ) (count : ℕ) (o : Option Entry)
      → fd < 2 ^ 31
      → cll.search s.rpool fd ≡ none
      → after s o bytes ≡ some (s', next)
      → IsMove cll s.rpool (stage_of (reads count) o) fd s' next
  unfolding read_done read_update
  read_done-IsMove s s' next bytes count none small gone h =
      returned cll is_cll s.rpool header fd (first_stage s bytes) (s', next) h
        (read_create-IsMove s bytes small gone)
  read_done-IsMove s s' next bytes count (some e) small gone h =
      elim (Option-cases (
        process_daemon_recv_update cll psched answers.alloc fresh cipher garbage blake2s
          sizeof_entry config clock fuel now s.rund e peer bytes)) [
            | inl out_of_fuel ↦ absurd (ground (arith, out_of_fuel))
            | inr ((r, dropped x), updated) ↦
                returned cll is_cll s.rpool payload fd
                  (discard cll answers (record s { rund = r }) fd) (s', next)
                  (ground (arith, updated))
                  (discard-IsMove cll is_cll answers s.rpool payload (record s { rund = r }) fd refl
                    (λ k apart. refl))
            | inr ((r, freed_twice x), updated) ↦
                returned cll is_cll s.rpool payload fd
                  (discard cll answers (record s { rund = r; broken = true }) fd) (s', next)
                  (ground (arith, updated))
                  (discard-IsMove cll is_cll answers s.rpool payload
                    (record s { rund = r; broken = true }) fd refl (λ k apart. refl))
            | inr ((r, replied acted reply), updated) ↦
                returned cll is_cll s.rpool payload fd
                  (read_replied cll answers (record s { rund = r }) fd acted reply) (s', next)
                  (ground (arith, updated))
                  (read_replied-IsMove cll is_cll answers (record s { rund = r }) fd acted reply
                    gone)
          ]

  abbrev notified : Server P S → ℕ → Transfer → Option (Server P S × Next)
  notified s count transfer =
      notify_read cll psched fresh cipher garbage blake2s host no_crypto sizeof_entry msg_size
        config answers clock fuel now s fd peer count transfer

  -- The end of a read: the header of an entry, or its payload.
  pub notify_read-IsMove :
      (s s' : Server P S) (next : Next) (count : ℕ) (transfer : Transfer)
      → fd < 2 ^ 31
      → notified s count transfer ≡ some (s', next)
      → IsMove cll s.rpool (stage_of (reads count) (cll.search s.rpool fd)) fd s' next
  unfolding notify_read
  notify_read-IsMove s s' next count incomplete small h =
      let from = stage_of (reads count) (cll.search s.rpool fd) in
      returned cll is_cll s.rpool from fd (s, idle) (s', next) h
        (getting_stuck cll is_cll from s fd (may_stick from))
  notify_read-IsMove s s' next count failed small h =
      let from = stage_of (reads count) (cll.search s.rpool fd) in
      returned cll is_cll s.rpool from fd (discard cll answers s fd) (s', next) h
        (discard-IsMove cll is_cll answers s.rpool from s fd (may_end from) (λ k apart. refl))
  notify_read-IsMove s s' next count (complete bytes) small h =
      let from = stage_of (reads count) (cll.search s.rpool fd) in
      let popped = record s { rpool = (cll.pope s.rpool fd).1 } in
      elim (Bool-cases (length bytes == count)) [
        | inr odd ↦
            returned cll is_cll s.rpool from fd (discard cll answers s fd) (s', next)
              (ground (arith, odd))
              (discard-IsMove cll is_cll answers s.rpool from s fd (may_end from) (λ k apart. refl))
        | inl whole ↦
            let found : after popped (cll.search s.rpool fd) bytes ≡ some (s', next) =
              rw⁻¹ (is_cll.pope_search s.rpool fd) (ground (arith, whole)) in
            rebased cll is_cll s.rpool fd s' next (
              read_done-IsMove popped s' next bytes count (cll.search s.rpool fd) small
                (popped_here cll is_cll s.rpool fd) found)
      ]
