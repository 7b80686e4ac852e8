-- ===== src/Usd/Notify/Local.antt =====
-- What a notification does to the pool of connections: it changes nothing for the other connections, and
-- makes one move of the protocol for its own.
use usched.Base.{
  ℕ, ◌≡◌, refl, ◌∙◌, ap, Bool, true, false, not, ◌&&◌, List, none, some, ◌⊎◌, inl, inr, ◌==◌,
  if◌then◌else◌, ok, arith, Option-cases, Bool-cases, ==_iff,
}
use usched.Common.Flag
use usched.Common.Entry.{
  Entry, entry_has_flag, entry_set_flag, entry_unset_flag, entry_cleanup_crypto,
  entry_cleanup_session,
}
use usched.Common.Entry.Flags.{has, has-entry_set_flag, has-entry_unset_flag}
use usched.Usd.Libs.{Cll, IsCll}
use usched.Usd.Notify.{
  Server, Answers, Next, reads, writes, closed, discard, enqueue, completed, read_state, next_read,
}
use usched.Usd.Notify.Connections.{Agrees, IsPending, Stage, over, header, stage_of, may_move}

-- The pool after a notification of `fd` that moves on from the stage `from`.
pub record IsMove {P S : Type 0} (cll : Cll P) (before : P) (from : Stage) (fd : ℕ) (s : Server P S)
    (next : Next) : Type 0 where
  pub agrees : Agrees next (cll.search s.rpool fd)
  pub moves : may_move from (stage_of next (cll.search s.rpool fd)) ≡ true
  pub others : (k : ℕ) → (fd == k) ≡ false → cll.search s.rpool k ≡ cll.search before k

completed_id : (e : Entry) → (completed e).id ≡ e.id
unfolding completed entry_set_flag entry_unset_flag entry_cleanup_crypto entry_cleanup_session
completed_id e = refl

completed_progress : (e : Entry) → has (completed e) Flag.progress ≡ false
unfolding completed entry_cleanup_crypto entry_cleanup_session entry_has_flag
completed_progress e = ground (
  arith,
  has-entry_set_flag (entry_unset_flag e Flag.progress) Flag.complete Flag.progress,
  has-entry_unset_flag e Flag.progress Flag.progress,
)

set_flag_id : (e : Entry) (f : ℕ) → (entry_set_flag e f).id ≡ e.id
unfolding entry_set_flag
set_flag_id e f = refl

pending :
    (e : Entry)
    → has e Flag.finish ≡ false
    → (has e Flag.progress && not (has e Flag.authorized)) ≡ true
    → IsPending (entry_set_flag e Flag.init)
pending e unfinished state = record {
  progress = has-entry_set_flag e Flag.init Flag.progress ∙ ground arith;
  bare = has-entry_set_flag e Flag.init Flag.authorized ∙ ground arith;
  initialized = has-entry_set_flag e Flag.init Flag.init ∙ ground arith;
  unfinished = has-entry_set_flag e Flag.init Flag.finish ∙ unfinished;
}

module _ {P : Type 0} (cll : Cll P) (is_cll : IsCll cll) where
  search-store-insert :
      (p p' : P) (e x : Entry) (fd : ℕ)
      → e.id ≡ fd
      → x.id ≡ fd
      → cll.insert p e ≡ ok p'
      → (cll.search (cll.store p' x) fd ≡ some x)
        × ((k : ℕ) → (fd == k) ≡ false → cll.search (cll.store p' x) k ≡ cll.search p k)
  search-store-insert p p' e x fd named renamed ins = (
    ground (arith, is_cll.search-store p' x fd, is_cll.search-insert p p' e fd ins),
    λ k apart. ground (arith, is_cll.search-store p' x k, is_cll.search-insert p p' e k ins),
  )

module _ {P S : Type 0} (cll : Cll P) (is_cll : IsCll cll) where
  search-discard :
      (answers : Answers) (s : Server P S) (fd k : ℕ)
      → cll.search (discard cll answers s fd).0.rpool k
        ≡ (if fd == k then none else cll.search s.rpool k)
  unfolding discard
  search-discard answers s fd k = elim (Option-cases (cll.search s.rpool fd)) [
    | inl gone ↦ elim (Bool-cases (fd == k)) [
      | inl same ↦
          let e : fd ≡ k = (==_iff fd k).0 same in
          ground (arith, gone, ap (λ j. cll.search s.rpool j) e)
      | inr other ↦ ground (arith, gone, other)
    ]
    | inr (e, there) ↦
        ground (arith, there, is_cll.search_id s.rpool fd e there, is_cll.search-del s.rpool fd k)
  ]

  closes : (answers : Answers) (s : Server P S) (fd : ℕ) → (discard cll answers s fd).1 ≡ closed
  unfolding discard
  closes answers s fd = ground arith

  pub discard-IsMove :
      (answers : Answers) (before : P) (from : Stage) (s : Server P S) (fd : ℕ)
      → may_move from over ≡ true
      → ((k : ℕ) → (fd == k) ≡ false → cll.search s.rpool k ≡ cll.search before k)
      → IsMove cll before from fd (discard cll answers s fd).0 (discard cll answers s fd).1
  discard-IsMove answers before from s fd may others =
      let gone : cll.search (discard cll answers s fd).0.rpool fd ≡ none =
        search-discard answers s fd fd ∙ ground arith in
      record {
        agrees = rw (closes answers s fd, gone) tt;
        moves = rw (closes answers s fd) may;
        others = λ k apart. search-discard answers s fd k ∙ ground (arith, others k apart);
      }

  pub enqueue-IsMove :
      (answers : Answers) (before : P) (from : Stage) (s : Server P S) (fd : ℕ) (next : Next)
      → may_move from over ≡ true
      → IsMove cll before from fd s next
      → IsMove cll before from fd
          (enqueue cll answers s fd next).0
          (enqueue cll answers s fd next).1
  unfolding enqueue
  enqueue-IsMove answers before from s fd next may m = elim (Bool-cases answers.queued) [
    | inl goes ↦ rw goes m
    | inr fails ↦ simp fails (discard-IsMove answers before from s fd may m.others)
  ]

  pub next_read-IsMove :
      (answers : Answers) (before : P) (from : Stage) (s : Server P S) (fd count : ℕ)
      → may_move from over ≡ true
      → IsMove cll before from fd s (reads count)
      → IsMove cll before from fd
          (next_read cll answers s fd count).0
          (next_read cll answers s fd count).1
  unfolding next_read
  next_read-IsMove answers before from s fd count may m = elim (Bool-cases (answers.alloc count)) [
    | inl room ↦ rw room (enqueue-IsMove answers before from s fd (reads count) may m)
    | inr full ↦ simp full (discard-IsMove answers before from s fd may m.others)
  ]

  -- The entry of the first stage, in the pool.
  stored-IsMove :
      (s : Server P S) (p' : P) (e x : Entry) (fd : ℕ) (reply : List ℕ) (b : Bool)
      → e.id ≡ fd
      → x.id ≡ fd
      → cll.insert s.rpool e ≡ ok p'
      → (has x Flag.progress ≡ false) ⊎ IsPending x
      → IsMove cll s.rpool header fd
          (record s { rpool = cll.store p' x; broken = b })
          (writes reply)
  stored-IsMove s p' e x fd reply b named renamed ins (inl done) =
      let (there, others) = search-store-insert cll is_cll s.rpool p' e x fd named renamed ins in
      record {
        agrees = rw there (λ h. absurd (ground (arith, h)));
        moves = rw (there, done) refl;
        others = others;
      }
  stored-IsMove s p' e x fd reply b named renamed ins (inr waiting) =
      let (there, others) = search-store-insert cll is_cll s.rpool p' e x fd named renamed ins in
      record {
        agrees = rw there (λ h. waiting);
        moves = rw (there, waiting.progress) refl;
        others = others;
      }

  pub read_state-IsMove :
      (answers : Answers) (s : Server P S) (p' : P) (fd : ℕ) (e : Entry)
      → e.id ≡ fd
      → cll.insert s.rpool e ≡ ok p'
      → IsMove cll s.rpool header fd
          (read_state cll answers (record s { rpool = p' }) fd e).0
          (read_state cll answers (record s { rpool = p' }) fd e).1
  unfolding read_state
  read_state-IsMove answers s p' fd e named ins = elim (Bool-cases (has e Flag.finish)) [
    | inl done ↦ rw done (
        enqueue-IsMove answers s.rpool header _ fd (writes e.session) refl (
          stored-IsMove s p' e (completed e) fd e.session _ named (completed_id e ∙ named) ins
            (inl (completed_progress e))))
    | inr open_end ↦ elim (Bool-cases (has e Flag.progress && not (has e Flag.authorized))) [
      | inl state ↦
          rw (open_end, state)
            (enqueue-IsMove answers s.rpool header _ fd (writes e.session) refl (
              stored-IsMove s p' e (entry_set_flag e Flag.init) fd e.session _ named
                (set_flag_id e Flag.init ∙ named) ins (inr (pending e open_end state))))
      | inr odd ↦
          rw (open_end, odd)
            (discard-IsMove answers s.rpool header _ fd refl
              (λ k apart. ground (arith, is_cll.search-insert s.rpool p' e k ins)))
    ]
  ]
