-- ===== src/Usd/Authorize/Tests.antt =====
-- A remote request of a user on the whitelist.
use usched.Common.Str.{strlen}
use usched.Usd.Auth.{auth_daemon_remote_session_verify}
use usched.Base.{false, [], ◌∷◌, some, ok, err, Errno}
use usched.Common.Entry.Samples.{sample}
use usched.Common.Entry.{Entry}
use usched.Usd.Auth.Samples.{test_auth}
use usched.Usd.Authorize.{Peer, AuthConfig, entry_daemon_authorize}
use usched.Usd.Authorize.Exact.{Authorizes, authorize_lem}

-- A request that names no user.
abbrev remote_request : Entry
remote_request = record (sample 0) { uid = 0xff; gid = 0xff }

abbrev remote : Peer
remote = record { is_unix = ok false; peer_cred = err Errno.einval; remote = test_auth }

abbrev lists : AuthConfig
lists = record {
  blacklist_uid = [];
  whitelist_uid = 1001 ∷ [];
  blacklist_gid = [];
  whitelist_gid = [];
}

authorize_lem_example :
    Authorizes lists remote_request
      (some (1001, 100))
      (entry_daemon_authorize lists remote_request remote)
unfolding entry_daemon_authorize auth_daemon_remote_session_verify strlen
authorize_lem_example = authorize_lem lists remote_request remote
