-- ===== src/Usd/Notify/Moves.antt =====
-- What the notifications share, and the end of a write, as one move of its connection.
use mathlib.Core.Path.{subst}
use usched.Base.{
  ℕ, ◌+◌, ◌≡◌, refl, ◌∙◌, true, false, not, ◌&&◌, List, Option, none, some, inl, inr, ◌==◌,
  if◌then◌else◌, length, arith, Outcome-cases, Bool-cases,
}
use usched.Common.Config.{session_max}
use usched.Common.Flag
use usched.Common.Entry.{Entry}
use usched.Common.Entry.Flags.{has}
use usched.Usd.Libs.{Cll, IsCll}
use usched.Usd.Notify.{
  Server, Answers, Transfer, complete, incomplete, failed, Next, writes, idle, sizeof_hdr,
  completed, is_query, read_replied, write_done, notify_write,
}
use usched.Usd.Notify.Connections.{
  Agrees, Stage, over, challenged, payload, replying, doomed, stuck, stage_of, may_move,
}
use usched.Usd.Notify.Local.{IsMove, discard-IsMove, enqueue-IsMove, next_read-IsMove}

pub may_end : (from : Stage) → may_move from over ≡ true
may_end from = ground arith

pub may_stick : (from : Stage) → may_move from stuck ≡ true
may_stick from = ground arith

module _ {P : Type 0} (cll : Cll P) (is_cll : IsCll cll) where
  pub search-pope :
      (p : P) (fd k : ℕ)
      → cll.search (cll.pope p fd).1 k ≡ (if fd == k then none else cll.search p k)
  search-pope p fd k = is_cll.pope_del p fd k ∙ is_cll.search-del p fd k

  pub popped_here : (p : P) (fd : ℕ) → cll.search (cll.pope p fd).1 fd ≡ none
  popped_here p fd = search-pope p fd fd ∙ ground arith

  popped_others :
      (p : P) (fd k : ℕ) → (fd == k) ≡ false → cll.search (cll.pope p fd).1 k ≡ cll.search p k
  popped_others p fd k apart = search-pope p fd k ∙ ground (arith, apart)

module _ {P S : Type 0} (cll : Cll P) (is_cll : IsCll cll) where
  -- A move from the pool without the entry of the connection.
  pub rebased :
      {from : Stage} (p : P) (fd : ℕ) (s : Server P S) (next : Next)
      → IsMove cll (cll.pope p fd).1 from fd s next
      → IsMove cll p from fd s next
  rebased p fd s next m = record {
    agrees = m.agrees;
    moves = m.moves;
    others = λ k apart. m.others k apart ∙ popped_others cll is_cll p fd k apart;
  }

  -- A notification that returns is a move if what it returns is one.
  pub returned :
      (p : P) (from : Stage) (fd : ℕ) (x y : Server P S × Next)
      → some x ≡ some y
      → IsMove cll p from fd x.0 x.1
      → IsMove cll p from fd y.0 y.1
  returned p from fd x y h m =
      subst (λ (z : Server P S × Next). IsMove cll p from fd z.0 z.1) (cc) m

  pub getting_stuck :
      (from : Stage) (s : Server P S) (fd : ℕ)
      → may_move from stuck ≡ true
      → IsMove cll s.rpool from fd s idle
  getting_stuck from s fd may = record { agrees = tt; moves = may; others = λ k apart. refl }

  reply-IsMove :
      (s : Server P S) (fd : ℕ) (reply : List ℕ)
      → cll.search s.rpool fd ≡ none
      → IsMove cll s.rpool payload fd s (writes reply)
  reply-IsMove s fd reply gone = record {
    agrees = rw gone tt;
    moves = rw gone refl;
    others = λ k apart. refl;
  }

  pub read_replied-IsMove :
      (answers : Answers) (s : Server P S) (fd : ℕ) (e : Entry) (reply : List ℕ)
      → cll.search s.rpool fd ≡ none
      → IsMove cll s.rpool payload fd
          (read_replied cll answers s fd e reply).0
          (read_replied cll answers s fd e reply).1
  unfolding read_replied
  read_replied-IsMove answers s fd e reply gone = elim (Bool-cases (has e Flag.finish)) [
    | inl done ↦ elim (Bool-cases (is_query (completed e))) [
      | inl query ↦
          rw (done, query)
            (enqueue-IsMove cll is_cll answers s.rpool payload _ fd (writes reply) refl
              (reply-IsMove _ fd reply gone))
      | inr kept ↦
          rw (done, kept)
            (enqueue-IsMove cll is_cll answers s.rpool payload _ fd (writes reply) refl
              (reply-IsMove _ fd reply gone))
    ]
    | inr open_end ↦ elim (Bool-cases (has e Flag.progress && not (has e Flag.authorized))) [
      | inl state ↦
          rw (open_end, state)
            (enqueue-IsMove cll is_cll answers s.rpool payload _ fd (writes reply) refl
              (reply-IsMove _ fd reply gone))
      | inr odd ↦
          rw (open_end, odd)
            (discard-IsMove cll is_cll answers s.rpool payload s fd refl (λ k apart. refl))
    ]
  ]

  write_done-IsMove :
      (answers : Answers) (s : Server P S) (fd : ℕ) (reply : List ℕ) (o : Option Entry)
      → cll.search s.rpool fd ≡ none
      → ((e : Entry) → o ≡ some e → e.id ≡ fd)
      → Agrees (writes reply) o
      → IsMove cll s.rpool
          (stage_of (writes reply) o)
          fd
          (write_done cll answers s fd o).0
          (write_done cll answers s fd o).1
  unfolding write_done
  write_done-IsMove answers s fd reply none gone named agrees =
      next_read-IsMove cll is_cll answers s.rpool replying s fd sizeof_hdr refl
        (record { agrees = rw gone refl; moves = rw gone refl; others = λ k apart. refl })
  write_done-IsMove answers s fd reply (some e) gone named agrees =
      elim (Bool-cases (has e Flag.progress)) [
        | inr finished ↦
            rw finished
              (discard-IsMove cll is_cll answers s.rpool doomed s fd refl (λ k apart. refl))
        | inl progress ↦ elim (Outcome-cases (cll.insert s.rpool e)) [
          | inr (x, full) ↦
              rw (progress, full)
                (discard-IsMove cll is_cll answers s.rpool challenged s fd refl (λ k apart. refl))
          | inl (p, ins) ↦
              let there : cll.search p fd ≡ some e =
                ground (arith, is_cll.search-insert s.rpool p e fd ins, named e refl) in
              rw (progress, ins)
                (next_read-IsMove cll is_cll answers s.rpool challenged _ fd (session_max + e.psize)
                  refl
                  (record {
                    agrees = rw there (agrees progress, refl);
                    moves = rw there refl;
                    others = λ k apart.
                        ground (arith, is_cll.search-insert s.rpool p e k ins, named e refl);
                  }))
        ]
      ]

  -- The end of a write: the next header, or the payload of the entry that was challenged.
  pub notify_write-IsMove :
      (answers : Answers) (s : Server P S) (fd : ℕ) (reply : List ℕ) (transfer : Transfer)
      → Agrees (writes reply) (cll.search s.rpool fd)
      → IsMove cll s.rpool
          (stage_of (writes reply) (cll.search s.rpool fd))
          fd
          (notify_write cll answers s fd (length reply) transfer).0
          (notify_write cll answers s fd (length reply) transfer).1
  unfolding notify_write
  notify_write-IsMove answers s fd reply incomplete agrees =
      getting_stuck _ s fd (may_stick (stage_of (writes reply) (cll.search s.rpool fd)))
  notify_write-IsMove answers s fd reply failed agrees =
      discard-IsMove cll is_cll answers s.rpool _ s fd
        (may_end (stage_of (writes reply) (cll.search s.rpool fd))) (λ k apart. refl)
  notify_write-IsMove answers s fd reply (complete bytes) agrees =
      elim (Bool-cases (length bytes == length reply)) [
        | inr odd ↦ rw odd (
            discard-IsMove cll is_cll answers s.rpool _ s fd
              (may_end (stage_of (writes reply) (cll.search s.rpool fd))) (λ k apart. refl))
        | inl whole ↦
            rw (whole, is_cll.pope_search s.rpool fd)
              (rebased s.rpool fd _ _ (
                write_done-IsMove answers (record s { rpool = (cll.pope s.rpool fd).1 }) fd reply
                  (cll.search s.rpool fd) (popped_here cll is_cll s.rpool fd)
                  (is_cll.search_id s.rpool fd) agrees))
      ]
