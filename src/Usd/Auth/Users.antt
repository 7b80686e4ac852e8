-- ===== src/Usd/Auth/Users.antt =====
-- When a remote session is verified, and who it belongs to then.
use usched.Base.{ℕ, ◌≤◌, ◌≡◌, List, some, ok, length}
use usched.Common.Config.{username_max}
use usched.Common.Str.{strlen}
use usched.Usd.Auth.{UserInfo, RemoteAuth, unset_owner, name_of, salt_raw, sizeof_pwhash}

module _ (auth : RemoteAuth) (username session context : List ℕ) (uid gid : ℕ) where
  -- The request names no owner; its user is one of the configuration, with a password that can be decoded;
  -- and libpsec authorizes the session with the salt that the padded name is hashed to. The owner is that
  -- of the configuration, the context and the key are those that libpsec gives.
  pub record IsVerified (context' key : List ℕ) (uid' gid' : ℕ) : Type 0 where
    pub info : UserInfo
    pub salt : List ℕ
    pub pwhash : List ℕ
    pub anonymous : (uid ≡ unset_owner) × (gid ≡ unset_owner)
    pub named : strlen username ≤ username_max
    pub known : auth.users (name_of username) ≡ some info
    pub salted : auth.hash_blake2s (salt_raw (name_of username)) ≡ some salt
    pub short : auth.decode_size (length info.password) ≤ sizeof_pwhash
    pub decoded : auth.decode info.password ≡ some pwhash
    pub authorized : auth.server_authorize context session salt ≡ ok (context', key)
    pub owner : (uid' ≡ info.uid) × (gid' ≡ info.gid)
