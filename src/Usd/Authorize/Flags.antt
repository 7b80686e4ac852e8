-- ===== src/Usd/Authorize/Flags.antt =====
-- src/usd/entry.c, `entry_daemon_authorize`: the flags that it leaves alone.
use usched.Base.{ℕ, ◌<◌, ◌≡◌, refl, false, ◌==◌, arith}
use usched.Common.Flag
use usched.Common.Entry.{Entry, entry_has_flag}
use usched.Common.Entry.Flags.{has, has-entry_set_flag, has-entry_unset_flag}
use usched.Usd.Authorize.{
  Peer, AuthConfig, apply_lists, entry_daemon_authorize, entry_daemon_authorize_remote,
  entry_daemon_remote_session_process,
}

pub same_flags : (a b : Entry) (f : ℕ) → a.flags ≡ b.flags → has a f ≡ has b f
unfolding entry_has_flag
same_flags a b f h = rw h refl

remote-flags : (e : Entry) (fd : Peer) → (entry_daemon_authorize_remote e fd).0.flags ≡ e.flags
unfolding entry_daemon_authorize_remote entry_daemon_remote_session_process
remote-flags e fd = ground arith

module _ (c : AuthConfig) (f : ℕ) where
  apply_lists-has :
      (e : Entry) → f < 32 → (Flag.authorized == f) ≡ false → has (apply_lists c e).0 f ≡ has e f
  unfolding apply_lists
  apply_lists-has e small other =
      ground
        (arith, has-entry_set_flag e Flag.authorized f, has-entry_unset_flag e Flag.authorized f)

  -- An authorization changes no flag but AUTHORIZED.
  pub authorize-has :
      (e : Entry) (fd : Peer)
      → f < 32
      → (Flag.authorized == f) ≡ false
      → has (entry_daemon_authorize c e fd).0 f ≡ has e f
  unfolding entry_daemon_authorize
  authorize-has e fd small other =
      let remote = (entry_daemon_authorize_remote e fd).0 in
      ground (
        arith,
        apply_lists-has e,
        apply_lists-has remote,
        same_flags remote e f (remote-flags e fd),
      )
