-- ===== src/Usd/Process/Stages.antt =====
-- src/usd/process.c: the two stages of a received entry. `process_daemon_recv_create` takes the header
-- and answers with a session; `process_daemon_recv_update` takes the session back with the payload, and
-- acts.
pub mod Granted
pub mod Operated
pub mod Received
mod Tests
use usched.Base.{
  ℕ, ◌+◌, ◌-◌, Bool, true, not, ◌&&◌, ◌||◌, List, [], ◌∷◌, ◌++◌, Option, none, some, ◌==◌, ltb,
  if◌then◌else◌, length, take, drop, zeros, Outcome, ok, err, Errno,
}
use usched.Common.Config.{username_max, session_max, output_max, u32}
use usched.Common.Flag
use usched.Common.Entry.{
  Entry, Crypto, entry_set_id, entry_set_flags, entry_set_flag, entry_set_payload,
  entry_unset_flags_local,
}
use usched.Common.Entry.Flags.{has}
use usched.Common.Entry.Payload.{Cipher, entry_payload_decrypt}
use usched.Usd.Libs.{Cll, Psched}
use usched.Usd.Runtime.{Rund}
use usched.Usd.Authorize.{
  Peer, AuthConfig, answer_truthy, conn_is_local, conn_is_remote, entry_daemon_authorize,
  entry_daemon_remote_session_create,
}
use usched.Usd.Process.{of_be_bytes, process_recv_update_op_del}
use usched.Usd.Process.New.{Updated, replied, dropped, freed_twice, process_recv_update_op_new}
use usched.Usd.Process.Get.{process_recv_update_op_get}

-- `HASH_DIGEST_SIZE_BLAKE2S`
abbrev pub sizeof_signature : ℕ
sizeof_signature = 32

-- The bytes of a field of the header, by its offset and its size.
unfoldable pub field_at : (offset size : ℕ) → List ℕ → List ℕ
field_at offset size bytes = take size (drop offset bytes)

-- `buf[size - 1] = 0`
pub terminated : ℕ → List ℕ → List ℕ
terminated size buf = take (size - 1) buf ++ 0 ∷ []

unfoldable pub has_operation : Entry → Bool
has_operation entry = has entry Flag.new || (has entry Flag.del || has entry Flag.get)

-- The session that the client gets: a challenge, or zeros for a local connection.
unfoldable pub start_session : Entry → Peer → Outcome Entry
start_session entry fd =
    let (opened, status) = entry_daemon_remote_session_create entry fd in
    if answer_truthy (conn_is_remote fd)
    then elim status [ err e ↦ err e | ok _ ↦ ok opened ]
    else if answer_truthy (conn_is_local fd)
    then ok (record entry { session = zeros session_max })
    else err Errno.einval

-- The header in an entry of zeros. `host` reads an integer in the byte order of the host, in which the
-- fields that the source ignores stay; `no_crypto` is the cryptographic data, all zeros.
module _ (host : List ℕ → ℕ) (no_crypto : Crypto) where
  unfoldable pub header_of : (fd : ℕ) → List ℕ → Entry
  header_of fd bytes =
      let word = λ (offset : ℕ). of_be_bytes 0 (field_at offset 4 bytes) in
      entry_unset_flags_local (
        entry_set_flags
          (entry_set_id
            (record {
              id = 0;
              flags = 0;
              uid = u32 (word 12);
              gid = u32 (word 16);
              trigger = u32 (word 20);
              step = u32 (word 24);
              expire = u32 (word 28);
              pid = host (field_at 32 4 bytes);
              status = host (field_at 36 4 bytes);
              exec_time = host (field_at 40 8 bytes);
              latency = host (field_at 48 8 bytes);
              outdata_len = host (field_at 56 4 bytes);
              outdata = field_at 60 output_max bytes;
              psize = u32 (word (60 + output_max));
              username = terminated username_max (field_at (64 + output_max) username_max bytes);
              session = field_at (64 + output_max + username_max) session_max bytes;
              payload = none;
              subj_size = 0;
              subj = none;
              psched_id = 0;
              crypto = no_crypto;
              create_time = 0;
              signature = zeros sizeof_signature;
            })
            fd)
          (word 8))

  -- The reply to the client is the session of the new entry. The sum with 21 has 32 bits.
  unfoldable pub process_daemon_recv_create :
      (alloc : ℕ → Bool) (sizeof_entry msg_size fd : ℕ) → Peer → List ℕ → Outcome Entry
  process_daemon_recv_create alloc sizeof_entry msg_size fd peer bytes =
      let entry = header_of fd bytes in
      if not (alloc sizeof_entry)
      then err Errno.enomem
      else if not (has_operation entry)
      then err Errno.einval
      else if entry.psize == 0
      then err Errno.einval
      else if has entry Flag.new && ltb msg_size (u32 (entry.psize + 21))
      then err Errno.einval
      else elim (start_session (entry_set_flag entry Flag.progress) peer) [
        | err e ↦ err e
        | ok opened ↦ if alloc session_max then ok opened else err Errno.enomem
      ]

-- The entry is in the finishing state and authorized, or the request is discarded.
unfoldable pub admit : AuthConfig → Entry → Peer → Outcome Entry
admit config entry fd =
    let check : Entry × Outcome Bool =
      if has entry Flag.authorized
      then (entry, ok true)
      else entry_daemon_authorize config entry fd in
    elim check.1 [
      | err e ↦ err e
      | ok _ ↦
          let finished = entry_set_flag check.0 Flag.finish in
          if has check.0 Flag.finish
          then err Errno.einval
          else if not (has finished Flag.authorized)
          then err Errno.einval
          else ok finished
    ]

module _ {P S : Type 0} (cll : Cll P) (psched : Psched S) (alloc : ℕ → Bool) (fresh : ℕ → List ℕ)
    (cipher : Cipher) (garbage : ℕ → ℕ) (blake2s : List ℕ → List ℕ) (sizeof_entry : ℕ) where
  -- The payload, decrypted if the connection is remote.
  unfoldable pub filled : Entry → Peer → List ℕ → Outcome Entry
  filled entry fd payload =
      let (full, status) = entry_set_payload alloc entry payload entry.psize in
      elim status [
        | err e ↦ err e
        | ok _ ↦
            let (plain, decrypted) = entry_payload_decrypt alloc fresh cipher full in
            if answer_truthy (conn_is_remote fd)
            then elim decrypted [ err e ↦ err e | ok _ ↦ ok plain ]
            else ok full
      ]

  abbrev sent : Outcome (Entry × List ℕ) → Updated
  sent (err e) = dropped e
  sent (ok (entry, reply)) = replied entry reply

  -- The operation of the request. Failures destroy the entry.
  unfoldable pub operate :
      (clock : ℕ → ℕ) (fuel now : ℕ) → Rund P S → Entry → Option (Rund P S × Updated)
  operate clock fuel now r entry =
      let (r', deleted) =
        process_recv_update_op_del cll psched alloc fresh cipher garbage r entry in
      if has entry Flag.new
      then process_recv_update_op_new cll psched alloc fresh cipher garbage blake2s clock fuel now r
          entry
      else if has entry Flag.del
      then some (r', sent deleted)
      else if has entry Flag.get
      then some (
        r,
        sent
            (process_recv_update_op_get cll psched alloc fresh cipher garbage sizeof_entry r entry),
      )
      else some (r, dropped Errno.einval)

  -- The part behind the checks of the state and of the size.
  unfoldable pub carry_out :
      AuthConfig
      → (clock : ℕ → ℕ) (fuel now : ℕ) → Rund P S
      → Entry
      → Peer
      → (payload : List ℕ) → Option (Rund P S × Updated)
  carry_out config clock fuel now r entry fd payload = elim (admit config entry fd) [
    | err e ↦ some (r, dropped e)
    | ok admitted ↦ elim (filled admitted fd payload) [
      | err e ↦ some (r, dropped e)
      | ok full ↦ operate clock fuel now r full
    ]
  ]

  -- `none` means that the fuel of the search for an id ran out.
  unfoldable pub process_daemon_recv_update :
      AuthConfig
      → (clock : ℕ → ℕ) (fuel now : ℕ) → Rund P S
      → Entry
      → Peer
      → List ℕ
      → Option (Rund P S × Updated)
  process_daemon_recv_update config clock fuel now r entry fd bytes =
      if not (has entry Flag.init)
      then some (r, dropped Errno.einval)
      else if has entry Flag.complete || has entry Flag.finish
      then some (r, dropped Errno.einval)
      else if not (length bytes == session_max + entry.psize)
      then some (r, dropped Errno.einval)
      else carry_out config clock fuel now r (record entry { session = take session_max bytes }) fd
          (drop session_max bytes)
