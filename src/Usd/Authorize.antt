-- ===== src/Usd/Authorize.antt =====
-- src/usd/entry.c, `entry_daemon_authorize` and the two functions on remote sessions, with the local check of src/usd/auth.c and the two
-- connection tests of src/common/conn.c.
pub mod Exact
pub mod Flags
mod Tests
use usched.Base.{
  ℕ, Bool, true, false, not, ◌||◌, List, [], ◌∷◌, Option, none, some, ◌==◌, if◌then◌else◌, Outcome,
  Status, ok, err, Errno,
}
use usched.Common.Flag
use usched.Usd.Auth.{
  RemoteAuth, auth_daemon_remote_session_verify, auth_daemon_remote_session_create,
}
use usched.Common.Entry.{Entry, Crypto, entry_set_flag, entry_unset_flag}

-- What the peer of a connection is, as the libraries of the system tell: the family of the socket
-- (`panet_info_sock_family`), the credentials of a local peer (`local_fd_peer_cred`), and what the
-- sessions of remote ones rest on.
pub record Peer : Type 0 where
  pub is_unix : Outcome Bool
  pub peer_cred : Outcome (ℕ × ℕ)
  pub remote : RemoteAuth

-- A C integer that is 1, 0 or -1.
pub data Answer : Type 0 where
  yes_answer no_answer error_answer : Answer

unfoldable pub conn_is_local : Peer → Answer
conn_is_local fd = elim fd.is_unix [
  | err _ ↦ error_answer
  | ok true ↦ yes_answer
  | ok false ↦ no_answer
]

unfoldable pub conn_is_remote : Peer → Answer
conn_is_remote fd = elim fd.is_unix [
  | err _ ↦ error_answer
  | ok true ↦ no_answer
  | ok false ↦ yes_answer
]

-- A test `if (conn_is_remote(fd))`: the error is -1, which is not 0.
abbrev pub answer_truthy : Answer → Bool
answer_truthy yes_answer = true
answer_truthy no_answer = false
answer_truthy error_answer = true

unfoldable pub auth_daemon_local : Peer → ℕ → ℕ → Status
auth_daemon_local fd uid gid = elim fd.peer_cred [
  | err e ↦ err e
  | ok (local_uid, local_gid) ↦
      if not (local_uid == uid) || not (local_gid == gid) then err Errno.einval else ok tt
]

unfoldable pub entry_daemon_authorize_local : Entry → Peer → Status
unfolding auth_daemon_local
entry_daemon_authorize_local entry fd = auth_daemon_local fd entry.uid entry.gid

unfoldable pub entry_daemon_remote_session_create : Entry → Peer → Entry × Status
entry_daemon_remote_session_create entry fd =
    elim (auth_daemon_remote_session_create fd.remote entry.username entry.session
      entry.crypto.context) [
        | err e ↦ (entry, err e)
        | ok (session, context) ↦ (
          record entry { session = session; crypto = record entry.crypto { context = context } },
          ok tt,
        )
      ]

unfoldable pub entry_daemon_remote_session_process : Entry → Peer → Entry × Status
entry_daemon_remote_session_process entry fd =
    elim (auth_daemon_remote_session_verify fd.remote entry.username entry.session
      entry.crypto.context entry.uid entry.gid) [
        | err e ↦ (entry, err e)
        | ok (context, agreed_key, uid, gid) ↦ (
          record entry {
            uid = uid;
            gid = gid;
            crypto = record { context = context; agreed_key = agreed_key; nonce = 0 };
          },
          ok tt,
        )
      ]

unfoldable pub entry_daemon_authorize_remote : Entry → Peer → Entry × Status
unfolding entry_daemon_remote_session_process
entry_daemon_authorize_remote entry fd = entry_daemon_remote_session_process entry fd

-- The lists of the configuration.
pub record AuthConfig : Type 0 where
  pub blacklist_uid : List ℕ
  pub whitelist_uid : List ℕ
  pub blacklist_gid : List ℕ
  pub whitelist_gid : List ℕ

unfoldable pub listed : List ℕ → ℕ → Bool
listed [] id = false
listed (x ∷ l) id = (x == id) || listed l id

abbrev is_empty : List ℕ → Bool
is_empty [] = true
is_empty (x ∷ l) = false

-- One pair of lists: a blacklist that is not empty takes precedence. The result is the new `ret`.
check_lists : List ℕ → List ℕ → ℕ → Bool → Bool
unfolding listed
check_lists bl wl id ret =
    if not (is_empty bl)
    then if listed bl id then false else ret
    else if not (is_empty wl)
    then if not (listed wl id) then false else ret
    else ret

-- The part behind the authentication.
apply_lists : AuthConfig → Entry → Entry × Outcome Bool
unfolding check_lists
apply_lists config entry =
    let by_uid = check_lists config.blacklist_uid config.whitelist_uid entry.uid true in
    let ret = check_lists config.blacklist_gid config.whitelist_gid entry.gid by_uid in
    if ret
    then (entry_set_flag entry Flag.authorized, ok true)
    else (entry_unset_flag entry Flag.authorized, ok false)

unfoldable pub entry_daemon_authorize : AuthConfig → Entry → Peer → Entry × Outcome Bool
unfolding apply_lists conn_is_local conn_is_remote entry_daemon_authorize_local
    entry_daemon_authorize_remote
entry_daemon_authorize config entry fd = elim (conn_is_local fd) [
  | error_answer ↦ elim fd.is_unix [ err e ↦ (entry, err e) | ok _ ↦ (entry, err Errno.enosys) ]
  | yes_answer ↦ elim (entry_daemon_authorize_local entry fd) [
    | err e ↦ (entry, err e)
    | ok _ ↦ apply_lists config entry
  ]
  | no_answer ↦ elim (conn_is_remote fd) [
    | error_answer ↦ (entry, err Errno.enosys)
    | yes_answer ↦
        let (entry', status) = entry_daemon_authorize_remote entry fd in
        elim status [ err e ↦ (entry', err e) | ok _ ↦ apply_lists config entry' ]
    | no_answer ↦ (entry, err Errno.enosys)
  ]
]
