-- ===== src/Usd/Auth.antt =====
-- src/usd/auth.c: the two steps of the key exchange with a remote client. The configured users are a
-- function from names to what include/config.h keeps of them; the hash, the base64 decoder and the key
-- exchange are those of libpsec.
pub mod Users
pub mod Samples
mod Tests
use usched.Base.{
  ℕ, ◌-◌, Bool, true, false, not, ◌||◌, List, [], ◌∷◌, ◌++◌, Option, none, some, ◌==◌, ltb,
  if◌then◌else◌, length, take, drop, replicate, Outcome, ok, err, Errno,
}
use usched.Common.Config.{username_max}
use usched.Common.Str.{strlen}

-- `struct usched_config_userinfo`
pub record UserInfo : Type 0 where
  pub username : List ℕ
  pub password : List ℕ
  pub salt : List ℕ
  pub uid : ℕ
  pub gid : ℕ

-- libpsec, and `rund.config.users.list->search`. A failure of the hash or of the decoder leaves an
-- `errno` of its own, `failure`.
pub record RemoteAuth : Type 0 where
  pub users : List ℕ → Option UserInfo
  pub hash_blake2s : List ℕ → Option (List ℕ)
  pub decode_size : ℕ → ℕ
  pub decode : List ℕ → Option (List ℕ)
  pub server_authorize : (context session salt : List ℕ) → Outcome (List ℕ × List ℕ)
  pub server_init : (context session pwhash : List ℕ) → Outcome (List ℕ × List ℕ)
  pub failure : Errno

-- `sizeof(pwhash)`: a SHA-512 digest and three bytes.
abbrev pub sizeof_pwhash : ℕ
sizeof_pwhash = 67

-- The user and the group that a remote request has to name.
abbrev pub unset_owner : ℕ
unset_owner = 0xff

-- The user name as a C string.
pub name_of : List ℕ → List ℕ
name_of username = take (strlen username) username

-- The name, padded with `x` to the size of the field.
pub salt_raw : List ℕ → List ℕ
salt_raw name = name ++ replicate (username_max - length name) 120

-- The new context, the agreed key, and the user and group of the configuration.
unfoldable pub auth_daemon_remote_session_verify :
    RemoteAuth
    → (username session context : List ℕ) → (uid gid : ℕ) → Outcome (List ℕ × List ℕ × ℕ × ℕ)
auth_daemon_remote_session_verify auth username session context uid gid =
    if not (uid == unset_owner) || not (gid == unset_owner)
    then err Errno.einval
    else if ltb username_max (strlen username)
    then err Errno.einval
    else elim (auth.hash_blake2s (salt_raw (name_of username))) [
      | none ↦ err auth.failure
      | some salt ↦ elim (auth.users (name_of username)) [
        | none ↦ err (Errno.other_errno 0)
        | some userinfo ↦
            if ltb sizeof_pwhash (auth.decode_size (length userinfo.password))
            then err Errno.einval
            else elim (auth.decode userinfo.password) [
              | none ↦ err auth.failure
              | some pwhash ↦ elim (auth.server_authorize context session salt) [
                | err e ↦ err e
                | ok (context', agreed_key) ↦ ok (context', agreed_key, userinfo.uid, userinfo.gid)
              ]
            ]
      ]
    ]

abbrev starts_with_dot : List ℕ → Bool
starts_with_dot [] = false
starts_with_dot (c ∷ name) = c == 46

-- The session that goes to the client, and the context. The session of the server takes the first bytes
-- of the field.
unfoldable pub auth_daemon_remote_session_create :
    RemoteAuth → (username session context : List ℕ) → Outcome (List ℕ × List ℕ)
auth_daemon_remote_session_create auth username session context =
    if starts_with_dot username then err Errno.einval else elim (auth.users (name_of username)) [
      | none ↦ err Errno.einval
      | some userinfo ↦
          if ltb sizeof_pwhash (auth.decode_size (length userinfo.password))
          then err Errno.einval
          else elim (auth.decode userinfo.password) [
            | none ↦ err auth.failure
            | some pwhash ↦ elim (auth.server_init context session pwhash) [
              | err e ↦ err e
              | ok (server_session, context') ↦
                  ok (server_session ++ drop (length server_session) session, context')
            ]
          ]
    ]
