-- ===== src/Usd/Authorize/Exact.antt =====
-- Who is authorized.
use usched.Base.{
  ℕ, ◌≡◌, refl, Bool, true, false, not, ◌&&◌, ◌||◌, List, Option, none, some, ◌==◌, if◌then◌else◌,
  Outcome, ok, err, arith, Bool-cases, inl, inr,
}
use usched.Common.Flag
use usched.Common.Entry.{Entry, entry_set_flag, entry_unset_flag}
use usched.Common.Entry.Flags.{has, has-entry_set_flag, has-entry_unset_flag}
use usched.Usd.Auth.{RemoteAuth, auth_daemon_remote_session_verify}
use usched.Usd.Authorize.{
  Peer, AuthConfig, listed, is_empty, check_lists, apply_lists, entry_daemon_authorize,
  entry_daemon_remote_session_process,
}

-- A user or group passes a pair of lists.
abbrev pub admitted : List ℕ → List ℕ → ℕ → Bool
admitted bl wl id = if is_empty bl then (is_empty wl || listed wl id) else not (listed bl id)

abbrev pub passes_lists : AuthConfig → ℕ → ℕ → Bool
passes_lists c uid gid =
    admitted c.blacklist_uid c.whitelist_uid uid && admitted c.blacklist_gid c.whitelist_gid gid

check_lists_lem :
    (bl wl : List ℕ) (id : ℕ) (ret : Bool) → check_lists bl wl id ret ≡ ret && admitted bl wl id
unfolding check_lists
check_lists_lem bl wl id ret = ground arith

apply_lists_lem :
    (c : AuthConfig) (e : Entry)
    → (has (apply_lists c e).0 Flag.authorized ≡ passes_lists c e.uid e.gid)
      × ((apply_lists c e).1 ≡ ok (passes_lists c e.uid e.gid))
unfolding apply_lists
apply_lists_lem c e = ground (
  arith,
  check_lists_lem c.blacklist_uid c.whitelist_uid e.uid true,
  check_lists_lem c.blacklist_gid c.whitelist_gid e.gid true,
  check_lists_lem c.blacklist_gid c.whitelist_gid e.gid false,
  has-entry_set_flag e Flag.authorized Flag.authorized,
  has-entry_unset_flag e Flag.authorized Flag.authorized,
)

apply_lists_owner :
    (c : AuthConfig) (e : Entry)
    → ((apply_lists c e).0.uid ≡ e.uid) × ((apply_lists c e).0.gid ≡ e.gid)
unfolding apply_lists entry_set_flag entry_unset_flag
apply_lists_owner c e = ground arith

-- The user and the group that a connection proves: those of the local peer, if the request names them,
-- or those of the remote session.
abbrev pub proven : Entry → Peer → Option (ℕ × ℕ)
proven e fd = elim fd.is_unix [
  | err _ ↦ none
  | ok true ↦ elim fd.peer_cred [
    | err _ ↦ none
    | ok (uid, gid) ↦ if (uid == e.uid) && (gid == e.gid) then some (uid, gid) else none
  ]
  | ok false ↦
      elim (auth_daemon_remote_session_verify fd.remote e.username e.session e.crypto.context e.uid
        e.gid) [ err _ ↦ none | ok (context, key, uid, gid) ↦ some (uid, gid) ]
]

abbrev pub is_error {ℓ} : {A : Type ℓ} → Outcome A → Bool
is_error (ok a) = false
is_error (err e) = true

-- Without a proven user the request fails with its flags as they were. Otherwise the entry belongs to
-- the proven user and group, and its flag and the result say whether both pass the lists.
abbrev pub Authorizes : AuthConfig → Entry → Option (ℕ × ℕ) → Entry × Outcome Bool → Type 0
Authorizes c e none (e', status) = (e'.flags ≡ e.flags) × (is_error status ≡ true)
Authorizes c e (some (uid, gid)) (e', status) =
    (e'.uid ≡ uid)
    × (e'.gid ≡ gid)
    × (has e' Flag.authorized ≡ passes_lists c uid gid)
    × (status ≡ ok (passes_lists c uid gid))

abbrev peer : Outcome Bool → Outcome (ℕ × ℕ) → RemoteAuth → Peer
peer u p v = record { is_unix = u; peer_cred = p; remote = v }

local_lem :
    (c : AuthConfig) (e : Entry) (p : Outcome (ℕ × ℕ)) (v : RemoteAuth)
    → Authorizes c e
        (proven e (peer (ok true) p v))
        (entry_daemon_authorize c e (peer (ok true) p v))
unfolding entry_daemon_authorize
local_lem c e (err x) v = (refl, refl)
local_lem c e (ok (uid, gid)) v = elim (Bool-cases ((uid == e.uid) && (gid == e.gid))) [
  | inr other ↦ rw other (ground arith)
  | inl same ↦ rw same (ground (arith, apply_lists_lem c e, apply_lists_owner c e))
]

remote_lem :
    (c : AuthConfig) (e : Entry) (p : Outcome (ℕ × ℕ)) (v : RemoteAuth)
    (o : Outcome (List ℕ × List ℕ × ℕ × ℕ))
    → auth_daemon_remote_session_verify v e.username e.session e.crypto.context e.uid e.gid ≡ o
    → Authorizes c e
        (proven e (peer (ok false) p v))
        (entry_daemon_authorize c e (peer (ok false) p v))
unfolding entry_daemon_authorize entry_daemon_remote_session_process
remote_lem c e p v (err x) failed = rw (failed, proven) (ground arith)
remote_lem c e p v (ok (context, key, uid, gid)) verified =
    let e1 = record e {
      uid = uid;
      gid = gid;
      crypto = record { context = context; agreed_key = key; nonce = 0 };
    } in
    rw (verified, proven) (ground (arith, apply_lists_lem c e1, apply_lists_owner c e1))

-- The daemon authorizes a request exactly for the user and group that the connection proves, if both
-- pass the blacklists and the whitelists; a blacklist that is not empty takes precedence.
pub authorize_lem :
    (c : AuthConfig) (e : Entry) (fd : Peer)
    → Authorizes c e (proven e fd) (entry_daemon_authorize c e fd)
authorize_lem c e fd = by_family fd.is_unix
  where
    by_family :
        (u : Outcome Bool)
        → Authorizes c e
            (proven e (peer u fd.peer_cred fd.remote))
            (entry_daemon_authorize c e (peer u fd.peer_cred fd.remote))
    by_family (err x) = unfold entry_daemon_authorize in (refl, refl)
    by_family (ok true) = local_lem c e fd.peer_cred fd.remote
    by_family (ok false) = remote_lem c e fd.peer_cred fd.remote _ refl
