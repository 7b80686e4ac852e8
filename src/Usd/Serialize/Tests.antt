-- ===== src/Usd/Serialize/Tests.antt =====
-- An entry on its way through the file.
use usched.Base.{
  ℕ, ◌^◌, ◌≤◌, ◌≡◌, ◌↔◌, ◌++◌, refl, Bool, true, List, [], ◌∷◌, ok, arith, codes, length,
  length-replicate, replicate,
}
use usched.Common.Flag
use usched.Common.Config.{output_max, username_max}
use usched.Common.Entry.{Entry, entry_set_flag, entry_has_flag}
use usched.Common.Bitops.{bit_test}
use usched.Common.Entry.Samples.{sample}
use usched.Common.Entry.Signature.{entry_update_signature, check-update, of_le_bytes}
use usched.Usd.Serialize.{
  entry_daemon_serialize, entry_daemon_unserialize, loaded, overrun, sizeof_fixed,
}
use usched.Usd.Serialize.RoundTrip.{IsStorable, persisted, bytes_written, unserialize-serialize}
use usched.Usd.Serialize.Overrun.{stored_length, unserialize_overruns}

abbrev plain_hash : List ℕ → List ℕ
plain_hash bytes = bytes

abbrev all : ℕ → Bool
all n = true

abbrev unsigned : Entry
unsigned = record (sample (2 ^ Flag.finish)) {
  outdata = replicate output_max 0;
  username = replicate username_max 0;
  psched_id = 0;
}

abbrev stored : Entry
stored = entry_update_signature plain_hash unsigned

stored-IsStorable : IsStorable (length stored.signature) stored (codes "ls")
unfolding entry_update_signature
stored-IsStorable = record {
  id = omega arith;
  flags = omega arith;
  uid = omega arith;
  gid = omega arith;
  trigger = omega arith;
  step = omega arith;
  expire = omega arith;
  pid = omega arith;
  status = omega arith;
  exec_time = omega arith;
  latency = omega arith;
  outdata_len = omega arith;
  outdata = length-replicate {A = ℕ} output_max 0;
  username = length-replicate {A = ℕ} username_max 0;
  subj_size = omega arith;
  create_time = omega arith;
  signature = refl;
  subj = refl;
  subj_length = omega arith;
}

unserialize-serialize_example :
    entry_daemon_unserialize all plain_hash
      (length stored.signature)
      5000
      (bytes_written (entry_daemon_serialize (ok tt) (ok tt) stored) ++ 1 ∷ 2 ∷ [])
    ≡ loaded (entry_set_flag (persisted stored) Flag.serialized) (1 ∷ 2 ∷ [])
unfolding entry_update_signature entry_has_flag bit_test
unserialize-serialize_example =
    unserialize-serialize all plain_hash (length stored.signature) stored (codes "ls")
      stored-IsStorable 5000 (1 ∷ 2 ∷ []) refl (check-update plain_hash unsigned) refl refl

-- All bits set.
abbrev bad : List ℕ
bad = replicate 4196 255

unserialize_overruns_example :
    (entry_daemon_unserialize all plain_hash 0 5000 bad ≡ overrun)
    ↔ ((all 5000 ≡ true) × (sizeof_fixed 0 ≤ length bad) × (output_max ≤ stored_length bad))
unserialize_overruns_example = unserialize_overruns 0 all plain_hash 5000 bad

-- The file `bad` does so.
bad_overruns : entry_daemon_unserialize all plain_hash 0 5000 bad ≡ overrun
unfolding of_le_bytes
bad_overruns =
    (unserialize_overruns 0 all plain_hash 5000 bad).1
      (refl, omega (arith, length-replicate {A = ℕ} 4196 255), omega arith)
