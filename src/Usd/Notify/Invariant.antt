-- ===== src/Usd/Notify/Invariant.antt =====
-- What holds in every state of the daemon that its connections can reach.
use mathlib.Core.Path.{subst}
use usched.Base.{
  ℕ, ◌≡◌, refl, true, false, List, Option, none, some, ◌⊎◌, inl, inr, ◌==◌, arith, take, Bool-cases,
  ==_iff,
}
use usched.Common.Config.{session_max}
use usched.Common.Entry.{Entry, Crypto}
use usched.Common.Entry.Payload.{Cipher}
use usched.Usd.Libs.{Cll, IsCll, Psched}
use usched.Usd.Runtime.{Rund}
use usched.Usd.Authorize.{Peer, AuthConfig}
use usched.Usd.Process.New.{Updated}
use usched.Usd.Process.Stages.{process_daemon_recv_update}
use usched.Usd.Process.Stages.Granted.{ActsAsGranted, update_granted}
use usched.Usd.Notify.{Server, Answers, Next, reads, writes, closed}
use usched.Usd.Notify.Connections.{
  Daemon, Step, accepts, read_ends, write_ends, elsewhere, Reach, here, next_step, Agrees,
  IsConsistent, IsPending, Stage, stage_of, may_move, with_phase,
}
use usched.Usd.Notify.Local.{IsMove}
use usched.Usd.Notify.Moves.{notify_write-IsMove}
use usched.Usd.Notify.Reads.{notify_read-IsMove}

-- Nothing is connected.
pub record IsInitial {P S : Type 0} (cll : Cll P) (d : Daemon P S) : Type 0 where
  pub disconnected : (fd : ℕ) → d.phase fd ≡ closed
  pub no_entry : (fd : ℕ) → cll.search d.server.rpool fd ≡ none

module _ {P S : Type 0} (cll : Cll P) where
  abbrev pub stage : Daemon P S → ℕ → Stage
  stage d fd = stage_of (d.phase fd) (cll.search d.server.rpool fd)

  -- One move of the connection `fd`, and none of the others.
  pub record IsStep (d d' : Daemon P S) (fd : ℕ) : Type 0 where
    pub agrees : Agrees (d'.phase fd) (cll.search d'.server.rpool fd)
    pub moves : may_move (stage d fd) (stage d' fd) ≡ true
    pub phases : (k : ℕ) → (fd == k) ≡ false → d'.phase k ≡ d.phase k
    pub entries :
        (k : ℕ) → (fd == k) ≡ false → cll.search d'.server.rpool k ≡ cll.search d.server.rpool k

  IsMove-IsStep :
      (d : Daemon P S) (fd : ℕ) (s : Server P S) (next : Next)
      → IsMove cll d.server.rpool (stage d fd) fd s next
      → IsStep d (record { server = s; phase = with_phase d.phase fd next }) fd
  IsMove-IsStep d fd s next m =
      let now : with_phase d.phase fd next fd ≡ next = ground arith in
      record {
        agrees = rw now m.agrees;
        moves = rw now m.moves;
        phases = λ k apart. ground (arith, apart);
        entries = m.others;
      }

  step_keeps :
      (d d' : Daemon P S) (fd : ℕ) → IsStep d d' fd → IsConsistent cll d → IsConsistent cll d'
  step_keeps d d' fd st c = record {
    agrees = λ k. elim (Bool-cases (fd == k)) [
      | inl same ↦ let e : fd ≡ k = (==_iff fd k).0 same in rw⁻¹ e st.agrees
      | inr apart ↦ rw (st.phases k apart, st.entries k apart) (c.agrees k)
    ];
  }

  was_gone :
      (d : Daemon P S) (fd : ℕ)
      → IsConsistent cll d
      → d.phase fd ≡ closed
      → cll.search d.server.rpool fd ≡ none
  was_gone d fd c shut = by_entry (cll.search d.server.rpool fd) (rw shut at (c.agrees fd))
    where
      by_entry : (o : Option Entry) → Agrees closed o → o ≡ none
      by_entry none ok_none = refl
      by_entry (some e) h = absurd h

module _ {P S : Type 0} (cll : Cll P) (psched : Psched S) (fresh : ℕ → List ℕ) (cipher : Cipher)
    (garbage : ℕ → ℕ) (blake2s : List ℕ → List ℕ) (host : List ℕ → ℕ) (no_crypto : Crypto)
    (sizeof_entry msg_size : ℕ) (config : AuthConfig) (is_cll : IsCll cll) where
  abbrev Steps : Daemon P S → Daemon P S → Type 0
  Steps = Step cll psched fresh cipher garbage blake2s host no_crypto sizeof_entry msg_size config

  abbrev Reaches : Daemon P S → Daemon P S → Type 0
  Reaches =
      Reach cll psched fresh cipher garbage blake2s host no_crypto sizeof_entry msg_size config

  Step-IsStep :
      (d d' : Daemon P S)
      → IsConsistent cll d
      → Steps d d'
      → ((fd : ℕ) × IsStep cll d d' fd)
        ⊎ ((d'.phase ≡ d.phase) × (d'.server.rpool ≡ d.server.rpool))
  Step-IsStep d d' c (accepts fd small shut) =
      let gone = was_gone cll d fd c shut in
      inl (
        fd,
        IsMove-IsStep cll d fd d.server _ (record {
          agrees = rw gone refl;
          moves = rw (shut, gone) refl;
          others = λ k apart. refl;
        }),
      )
  Step-IsStep d d' c
        (read_ends answers clock fuel now fd peer count transfer s next small whole waits ran) =
      inl (
        fd,
        IsMove-IsStep cll d fd s next (
            rw waits (
              notify_read-IsMove cll psched fresh cipher garbage blake2s host no_crypto sizeof_entry
                msg_size config is_cll answers clock fuel now fd peer d.server s next count transfer
                small ran)),
      )
  Step-IsStep d d' c (write_ends answers fd reply transfer s next small whole waits ran) = inl (
    fd,
    IsMove-IsStep cll d fd s next (
        rw waits (
          subst
            (λ (z : Server P S × Next).
              IsMove cll d.server.rpool (stage_of (writes reply) (cll.search d.server.rpool fd)) fd
                z.0 z.1)
            ran
            (notify_write-IsMove cll is_cll answers d.server fd reply transfer
              (rw waits at (c.agrees fd))))),
  )
  Step-IsStep d d' c (elsewhere r) = inr (refl, refl)

  -- Every step keeps what the pool holds for each connection in accord with what the connection waits
  -- for.
  Step-IsConsistent : (d d' : Daemon P S) → IsConsistent cll d → Steps d d' → IsConsistent cll d'
  Step-IsConsistent d d' c st = elim (Step-IsStep d d' c st) [
    | inl (fd, one) ↦ step_keeps cll d d' fd one c
    | inr (phases, pool) ↦ record { agrees = λ k. rw (phases, pool) (c.agrees k) }
  ]

  -- In every state that is reached from one with no connections, the entry of a connection that reads is
  -- in progress, initialized and not authorized, and the size that is awaited is that of its session
  -- and payload; without an entry a header is awaited; and a closed connection has no entry.
  pub Reach-IsConsistent :
      (d d' : Daemon P S) → IsInitial cll d → Reaches d d' → IsConsistent cll d'
  Reach-IsConsistent d d' start here = record {
    agrees = λ fd. rw (start.disconnected fd, start.no_entry fd) tt;
  }
  Reach-IsConsistent d d' start (next_step r st) =
      Step-IsConsistent _ d' (Reach-IsConsistent d _ start r) st

  -- From a state that is reached from one with no connections, each step leaves the stages of all
  -- connections as they are, or is a move of the protocol for one connection and leaves the others.
  pub Step-follows_protocol :
      (d0 d d' : Daemon P S)
      → IsInitial cll d0
      → Reaches d0 d
      → Steps d d'
      → ((fd : ℕ) × (may_move (stage cll d fd) (stage cll d' fd) ≡ true)
          × ((k : ℕ) → (fd == k) ≡ false → stage cll d' k ≡ stage cll d k))
        ⊎ ((k : ℕ) → stage cll d' k ≡ stage cll d k)
  Step-follows_protocol d0 d d' start r st =
      elim (Step-IsStep d d' (Reach-IsConsistent d0 d start r) st) [
        | inl (fd, one) ↦
            inl (fd, one.moves, λ k apart. rw (one.phases k apart, one.entries k apart) refl)
        | inr (phases, pool) ↦ inr (λ k. rw (phases, pool) refl)
      ]

  reads-IsPending :
      (d : Daemon P S) (fd count : ℕ) (e : Entry)
      → IsConsistent cll d
      → d.phase fd ≡ reads count
      → cll.search d.server.rpool fd ≡ some e
      → IsPending e
  reads-IsPending d fd count e c waits there = (rw (waits, there) at (c.agrees fd)).0

  -- In every state that is reached from one with no connections by notifications that start only while no
  -- pool has an entry that was freed: what a client sends to the entry of its connection is discarded and
  -- changes nothing, or is carried out as the user and the group that the connection proves, and these
  -- pass the lists.
  pub request_granted :
      (d0 d : Daemon P S) (answers : Answers) (clock : ℕ → ℕ) (fuel now fd count : ℕ) (peer : Peer)
      (e : Entry) (bytes : List ℕ) (r' : Rund P S) (out : Updated)
      → IsInitial cll d0
      → Reaches d0 d
      → d.phase fd ≡ reads count
      → cll.search d.server.rpool fd ≡ some e
      → process_daemon_recv_update cll psched answers.alloc fresh cipher garbage blake2s
          sizeof_entry config clock fuel now d.server.rund e peer bytes
        ≡ some (r', out)
      → ActsAsGranted cll psched answers.alloc fresh cipher garbage blake2s sizeof_entry config
          clock fuel now d.server.rund
          (record e { session = take session_max bytes })
          peer
          r'
          out
  request_granted d0 d answers clock fuel now fd count peer e bytes r' out start r waits there ran =
      let waiting = reads-IsPending d fd count e (Reach-IsConsistent d0 d start r) waits there in
      update_granted cll psched answers.alloc fresh cipher garbage blake2s sizeof_entry config clock
        fuel now d.server.rund r' out e peer bytes waiting.bare ran
