-- ===== src/Usd/Auth/Samples.antt =====
-- A key exchange that keeps nothing secret, for the tests and the witnesses.
use usched.Base.{some, [], ok, Errno}
use usched.Usd.Auth.{RemoteAuth}

abbrev pub test_auth : RemoteAuth
test_auth = record {
  users =
      λ name. some (record { username = name; password = []; salt = []; uid = 1001; gid = 100 });
  hash_blake2s = λ bytes. some bytes;
  decode_size = λ n. n;
  decode = λ bytes. some bytes;
  server_authorize = λ context session salt. ok (context, session);
  server_init = λ context session pwhash. ok (session, context);
  failure = Errno.einval;
}
