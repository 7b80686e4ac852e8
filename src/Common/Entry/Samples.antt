-- ===== src/Common/Entry/Samples.antt =====
-- Entries for the tests and the witnesses.
use usched.Base.{ℕ, [], none, some, codes}
use usched.Common.Entry.{Entry}

-- An entry of user 1000, finished and authorized (flags 1 and 13 and 15 as the daemon keeps them).
abbrev pub sample : (flags : ℕ) → Entry
sample flags = record {
  id = 7;
  flags = flags;
  uid = 1000;
  gid = 100;
  trigger = 5000;
  step = 60;
  expire = 0;
  pid = 0;
  status = 0;
  exec_time = 0;
  latency = 0;
  outdata_len = 0;
  outdata = [];
  psize = 0;
  username = [];
  session = [];
  payload = none;
  subj_size = 2;
  subj = some (codes "ls");
  psched_id = 1;
  crypto = record { context = []; agreed_key = codes "key"; nonce = 0 };
  create_time = 0;
  signature = [];
}
