-- ===== src/Usd/Process/Samples.antt =====
-- A runtime with the entries of two users, a local client and what it sends, and the simplest of what the
-- daemon calls.
use usched.Base.{ℕ, ◌^◌, Bool, true, false, List, [], ◌∷◌, ◌++◌, some, ok, Errno, replicate}
use usched.Common.Flag
use usched.Common.Entry.{Entry, Crypto}
use usched.Common.Entry.Samples.{sample}
use usched.Common.Entry.Payload.{Cipher}
use usched.Usd.Libs.Samples.{Timers}
use usched.Usd.Auth.Samples.{test_auth}
use usched.Usd.Runtime.{Rund}
use usched.Usd.Authorize.{Peer, AuthConfig}

abbrev pub all : ℕ → Bool
all n = true

abbrev pub blank : ℕ → List ℕ
blank n = []

abbrev pub zero_garbage : ℕ → ℕ
zero_garbage n = 0

abbrev pub plain_cipher : Cipher
plain_cipher = record {
  extra = 0;
  encrypt = λ key nonce p. some p;
  decrypt = λ key nonce c. some c;
  failure = Errno.einval;
}

abbrev pub mine : Entry
mine = sample (2 ^ Flag.finish)

abbrev pub theirs : Entry
theirs = record (sample (2 ^ Flag.finish)) { id = 8; uid = 1001 }

abbrev pub runtime : Rund (List Entry) Timers
runtime = record {
  flags = 0;
  apool = mine ∷ theirs ∷ [];
  psched = (1, 5000, 60, 0) ∷ [];
  active = true;
  cancelled = false;
}

abbrev pub plain_hash : List ℕ → List ℕ
plain_hash bytes = bytes

abbrev pub no_crypto : Crypto
no_crypto = record { context = []; agreed_key = []; nonce = 0 }

abbrev pub host_order : List ℕ → ℕ
host_order bytes = 0

-- User 1000, group 100, on the same host.
abbrev pub local : Peer
local = record { is_unix = ok true; peer_cred = ok (1000, 100); remote = test_auth }

abbrev pub no_lists : AuthConfig
no_lists = record { blacklist_uid = []; whitelist_uid = []; blacklist_gid = []; whitelist_gid = [] }

abbrev pub blanks : ℕ → List ℕ
blanks n = replicate n 0

-- The header that this user sends: the flags, and the size of the payload, as the last two bytes and as
-- four bytes.
abbrev pub header_bytes : (flags_high flags_low : ℕ) → (psize : List ℕ) → List ℕ
header_bytes flags_high flags_low psize =
    blanks 8
    ++ (0 ∷ 0 ∷ flags_high ∷ flags_low ∷ 0 ∷ 0 ∷ 3 ∷ 232 ∷ 0 ∷ 0 ∷ 0 ∷ 100 ∷ blanks 12)
    ++ (blanks 28 ++ (blanks 4096 ++ (psize ++ blanks 304)))
