-- ===== src/Usd/Notify.antt =====
-- src/usd/notify.c: what the daemon does when an asynchronous read or write of a connection ends. The
-- entries of connections are in `rpool` under their file descriptors.
pub mod Connections
pub mod Invariant
pub mod Local
pub mod Broken
pub mod Moves
pub mod Reads
mod Tests
use usched.Base.{
  ℕ, ◌+◌, Bool, true, false, not, ◌&&◌, ◌||◌, List, [], Option, none, some, ◌==◌, if◌then◌else◌,
  length, is_some, Outcome, ok, err,
}
use usched.Common.Config.{username_max, session_max, output_max}
use usched.Common.Flag
use usched.Common.Entry.{
  Entry, Crypto, entry_set_flag, entry_unset_flag, entry_cleanup_crypto, entry_cleanup_session,
}
use usched.Common.Entry.Flags.{has}
use usched.Common.Entry.Payload.{Cipher}
use usched.Usd.Libs.{Cll, Psched}
use usched.Usd.Runtime.{Rund, runtime_daemon_fatal}
use usched.Usd.Authorize.{Peer, AuthConfig}
use usched.Usd.Process.New.{Updated, replied, dropped, freed_twice}
use usched.Usd.Process.Stages.{process_daemon_recv_create, process_daemon_recv_update}

-- `usched_entry_hdr_size()`
abbrev pub sizeof_hdr : ℕ
sizeof_hdr = 64 + output_max + username_max + session_max

-- How the operation ended, with the bytes that were read.
pub data Transfer : Type 0 where
  complete : List ℕ → Transfer
  incomplete : Transfer
  failed : Transfer

-- What the connection does next. `idle`: the notification returned with no operation in hand.
pub data Next : Type 0 where
  reads : (count : ℕ) → Next
  writes : List ℕ → Next
  idle : Next
  closed : Next

-- The runtime with the pool of connections. `broken` is no part of the program: it says that an entry was
-- freed twice, or freed while a pool has it.
pub record Server (P S : Type 0) : Type 0 where
  pub rund : Rund P S
  pub rpool : P
  pub broken : Bool

-- What the calls outside the program answer, in one notification: memory, the queue of the operations,
-- and the collector of the operations that are done.
pub record Answers : Type 0 where
  pub alloc : ℕ → Bool
  pub queued : Bool
  pub collected : Bool

pub completed : Entry → Entry
completed entry =
    entry_cleanup_session
      (entry_cleanup_crypto (entry_set_flag (entry_unset_flag entry Flag.progress) Flag.complete))

pub is_query : Entry → Bool
is_query entry = has entry Flag.get || has entry Flag.del

module _ {P S : Type 0} (cll : Cll P) where
  -- The end of both notifications that fail.
  pub discard : Answers → Server P S → (fd : ℕ) → Server P S × Next
  discard answers s fd =
      let s' : Server P S = elim (cll.search s.rpool fd) [
        | none ↦ s
        | some entry ↦ record s { rpool = cll.del s.rpool entry.id }
      ] in
      if answers.collected
      then (s', closed)
      else (record s' { rund = runtime_daemon_fatal s'.rund }, closed)

  -- The operation that is handed to the queue, or the end of the connection.
  pub enqueue : Answers → Server P S → (fd : ℕ) → Next → Server P S × Next
  enqueue answers s fd next = if answers.queued then (s, next) else discard answers s fd

  -- The entry of a request that succeeded. A new one is in the active pool by now, and the writes go
  -- there. A query is destroyed, and so is a new entry that is a query as well, while the pool has it.
  pub read_replied : Answers → Server P S → (fd : ℕ) → Entry → (reply : List ℕ) → Server P S × Next
  read_replied answers s fd e reply =
      let stored = λ (kept : Entry). record s {
        rund = record s.rund { apool = cll.store s.rund.apool kept };
      } in
      let freed = record s {
        broken = s.broken || (has e Flag.new && is_some (cll.search s.rund.apool e.id));
      } in
      if has e Flag.finish
      then if is_query (completed e)
        then enqueue answers freed fd (writes reply)
        else enqueue answers (stored (completed e)) fd (writes reply)
      else if has e Flag.progress && not (has e Flag.authorized)
      then enqueue answers (stored (entry_set_flag e Flag.init)) fd (writes reply)
      else discard answers s fd

  -- What becomes of an entry that was just put into the pool: in a state that is not known it ends the
  -- connection. The reply is its session, as it was when the entry was created.
  pub read_state : Answers → Server P S → (fd : ℕ) → Entry → Server P S × Next
  read_state answers s fd entry =
      let done = record s {
        rpool = cll.store s.rpool (completed entry);
        broken = s.broken || is_query (completed entry);
      } in
      let marked = record s { rpool = cll.store s.rpool (entry_set_flag entry Flag.init) } in
      if has entry Flag.finish
      then enqueue answers done fd (writes entry.session)
      else if has entry Flag.progress && not (has entry Flag.authorized)
      then enqueue answers marked fd (writes entry.session)
      else discard answers s fd

  -- The next read, into a new buffer.
  pub next_read : Answers → Server P S → (fd count : ℕ) → Server P S × Next
  next_read answers s fd count =
      if answers.alloc count then enqueue answers s fd (reads count) else discard answers s fd

  -- The reply was sent. The entry of the connection, if it has one, is out of the pool.
  pub write_done : Answers → Server P S → (fd : ℕ) → Option Entry → Server P S × Next
  write_done answers s fd none = next_read answers s fd sizeof_hdr
  write_done answers s fd (some entry) =
      if not (has entry Flag.progress)
      then discard answers s fd
      else elim (cll.insert s.rpool entry) [
        | err _ ↦ discard answers s fd
        | ok p ↦ next_read answers (record s { rpool = p }) fd (session_max + entry.psize)
      ]

  pub notify_write : Answers → Server P S → (fd : ℕ) → (count : ℕ) → Transfer → Server P S × Next
  notify_write answers s fd count incomplete = (s, idle)
  notify_write answers s fd count failed = discard answers s fd
  notify_write answers s fd count (complete bytes) =
      let (found, p) = cll.pope s.rpool fd in
      if not (length bytes == count)
      then discard answers s fd
      else write_done answers (record s { rpool = p }) fd found

module _ {P S : Type 0} (cll : Cll P) (psched : Psched S) (fresh : ℕ → List ℕ) (cipher : Cipher)
    (garbage : ℕ → ℕ) (blake2s : List ℕ → List ℕ) (host : List ℕ → ℕ) (no_crypto : Crypto)
    (sizeof_entry msg_size : ℕ) (config : AuthConfig) where
  -- The entry of the connection is out of the pool: the second stage.
  pub read_update :
      Answers
      → (clock : ℕ → ℕ) (fuel now : ℕ) → Server P S
      → (fd : ℕ) → Peer
      → Entry
      → List ℕ
      → Option (Server P S × Next)
  read_update answers clock fuel now s fd peer entry bytes =
      elim (process_daemon_recv_update cll psched answers.alloc fresh cipher garbage blake2s
        sizeof_entry config clock fuel now s.rund entry peer bytes) [
          | none ↦ none
          | some (r, out) ↦
              let s' = record s { rund = r } in
              elim out [
                | dropped _ ↦ some (discard cll answers s' fd)
                | freed_twice _ ↦ some (discard cll answers (record s' { broken = true }) fd)
                | replied e reply ↦ some (read_replied cll answers s' fd e reply)
              ]
        ]

  -- No entry of the connection: the first stage.
  pub read_create : Answers → Server P S → (fd : ℕ) → Peer → List ℕ → Server P S × Next
  read_create answers s fd peer bytes =
      elim (process_daemon_recv_create host no_crypto answers.alloc sizeof_entry msg_size fd peer
        bytes) [
          | err _ ↦ discard cll answers s fd
          | ok entry ↦ elim (cll.insert s.rpool entry) [
            | err _ ↦ discard cll answers s fd
            | ok p ↦ read_state cll answers (record s { rpool = p }) fd entry
          ]
        ]

  -- The bytes were received. The entry of the connection, if it has one, is out of the pool.
  pub read_done :
      Answers
      → (clock : ℕ → ℕ) (fuel now : ℕ) → Server P S
      → (fd : ℕ) → Peer
      → List ℕ
      → Option Entry
      → Option (Server P S × Next)
  read_done answers clock fuel now s fd peer bytes none = some (read_create answers s fd peer bytes)
  read_done answers clock fuel now s fd peer bytes (some entry) =
      read_update answers clock fuel now s fd peer entry bytes

  -- `count` is `aop->count`. `none` means that the fuel of the search for an id ran out.
  pub notify_read :
      Answers
      → (clock : ℕ → ℕ) (fuel now : ℕ) → Server P S
      → (fd : ℕ) → Peer
      → (count : ℕ) → Transfer
      → Option (Server P S × Next)
  notify_read answers clock fuel now s fd peer count incomplete = some (s, idle)
  notify_read answers clock fuel now s fd peer count failed = some (discard cll answers s fd)
  notify_read answers clock fuel now s fd peer count (complete bytes) =
      let (found, p) = cll.pope s.rpool fd in
      if not (length bytes == count)
      then some (discard cll answers s fd)
      else read_done answers clock fuel now (record s { rpool = p }) fd peer bytes found
