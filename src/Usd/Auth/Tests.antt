-- ===== src/Usd/Auth/Tests.antt =====
-- A session of a known user.
use usched.Common.Str.{strlen}
use usched.Base.{◌≡◌, refl, [], ok, codes}
use usched.Usd.Auth.{auth_daemon_remote_session_verify}
use usched.Usd.Auth.Samples.{test_auth}

verified :
    auth_daemon_remote_session_verify test_auth (codes "eve") [] [] 0xff 0xff
    ≡ ok ([], [], 1001, 100)
unfolding auth_daemon_remote_session_verify strlen
verified = refl
