-- ===== src/Usd/Notify/Connections.antt =====
-- The connections of the daemon, as a step relation: the notifications of all connections in any order,
-- and between them whatever else happens to the runtime.
use usched.Base.{
  ℕ, ◌+◌, ◌^◌, ◌<◌, ◌≡◌, Bool, true, false, List, Option, none, some, ◌==◌, if◌then◌else◌, length,
}
use usched.Common.Config.{session_max}
use usched.Common.Flag
use usched.Common.Entry.{Entry, Crypto}
use usched.Common.Entry.Flags.{has}
use usched.Common.Entry.Payload.{Cipher}
use usched.Usd.Libs.{Cll, Psched}
use usched.Usd.Runtime.{Rund}
use usched.Usd.Authorize.{Peer, AuthConfig}
use usched.Usd.Notify.{
  Server, Answers, Transfer, Next, reads, writes, idle, closed, sizeof_hdr, notify_read,
  notify_write,
}

-- What each file descriptor waits for.
pub record Daemon (P S : Type 0) : Type 0 where
  pub server : Server P S
  pub phase : ℕ → Next

abbrev pub with_phase : (ℕ → Next) → ℕ → Next → ℕ → Next
with_phase phase fd next k = if fd == k then next else phase k

module _ {P S : Type 0} (cll : Cll P) (psched : Psched S) (fresh : ℕ → List ℕ) (cipher : Cipher)
    (garbage : ℕ → ℕ) (blake2s : List ℕ → List ℕ) (host : List ℕ → ℕ) (no_crypto : Crypto)
    (sizeof_entry msg_size : ℕ) (config : AuthConfig) where
  -- `accepts`: src/usd/conn.c asks for a header. `elsewhere`: the scheduler, or another thread. No read and
  -- no write ends where the heap is broken: the program goes on there with undefined behaviour, which is
  -- not modelled. A client gets it there with a header that has FINISH and GET or DEL, or with a request that
  -- is NEW and GET or DEL.
  pub data Step (d : Daemon P S) : Daemon P S → Type 0 where
    accepts :
        (fd : ℕ)
        → fd < 2 ^ 31
        → d.phase fd ≡ closed
        → Step d (record d { phase = with_phase d.phase fd (reads sizeof_hdr) })
    read_ends :
        (answers : Answers) (clock : ℕ → ℕ) (fuel now fd : ℕ) (peer : Peer) (count : ℕ)
        (transfer : Transfer) (s : Server P S) (next : Next)
        → fd < 2 ^ 31
        → d.server.broken ≡ false
        → d.phase fd ≡ reads count
        → notify_read cll psched fresh cipher garbage blake2s host no_crypto sizeof_entry msg_size
            config answers clock fuel now d.server fd peer count transfer
          ≡ some (s, next)
        → Step d (record { server = s; phase = with_phase d.phase fd next })
    write_ends :
        (answers : Answers) (fd : ℕ) (reply : List ℕ) (transfer : Transfer) (s : Server P S)
        (next : Next)
        → fd < 2 ^ 31
        → d.server.broken ≡ false
        → d.phase fd ≡ writes reply
        → notify_write cll answers d.server fd (length reply) transfer ≡ (s, next)
        → Step d (record { server = s; phase = with_phase d.phase fd next })
    elsewhere : (r : Rund P S) → Step d (record d { server = record d.server { rund = r } })

  pub data Reach (d : Daemon P S) : Daemon P S → Type 0 where
    here : Reach d d
    next_step : {d1 d2 : Daemon P S} → Reach d d1 → Step d1 d2 → Reach d d2

-- An entry whose client has been answered, and has not proved who it is.
pub record IsPending (e : Entry) : Type 0 where
  pub progress : has e Flag.progress ≡ true
  pub bare : has e Flag.authorized ≡ false
  pub initialized : has e Flag.init ≡ true
  pub unfinished : has e Flag.finish ≡ false

-- What the pool holds for a connection, by what the connection waits for.
abbrev pub Agrees : Next → Option Entry → Type 0
Agrees (reads count) none = count ≡ sizeof_hdr
Agrees (reads count) (some e) = IsPending e × (count ≡ session_max + e.psize)
Agrees (writes reply) none = Unit
Agrees (writes reply) (some e) = has e Flag.progress ≡ true → IsPending e
Agrees idle o = Unit
Agrees closed none = Unit
Agrees closed (some e) = ⊥

-- What the invariant says of every connection.
pub record IsConsistent {P S : Type 0} (cll : Cll P) (d : Daemon P S) : Type 0 where
  pub agrees : (fd : ℕ) → Agrees (d.phase fd) (cll.search d.server.rpool fd)

-- The protocol of one connection, without the entries.
pub data Stage : Type 0 where
  over header challenged payload replying doomed stuck : Stage

abbrev pub stage_of : Next → Option Entry → Stage
stage_of closed o = over
stage_of idle o = stuck
stage_of (reads n) none = header
stage_of (reads n) (some e) = payload
stage_of (writes b) none = replying
stage_of (writes b) (some e) = if has e Flag.progress then challenged else doomed

-- Where the protocol goes in one move: a payload is read only from a client that has been challenged,
-- and only a payload is replied to. Every stage may end, or get stuck.
abbrev pub may_move : Stage → Stage → Bool
may_move s over = true
may_move s stuck = true
may_move over header = true
may_move header challenged = true
may_move header doomed = true
may_move challenged payload = true
may_move payload replying = true
may_move replying header = true
may_move s t = false
