-- ===== src/Common/Hash.antt =====
-- src/common/hash.c, with CONFIG_USCHED_HASH_FNV1A set: the hash of a string in 64 bits.
use Prim.Native.Nat.{bit_xor}
use usched.Base.{ℕ, ◌+◌, ◌-◌, ◌*◌, ◌^◌, ◌<◌, List, [], ◌∷◌, ltb, if◌then◌else◌, arith}
use usched.Common.Config.{u64}

-- A `char` in 64 bits: it is signed on the hosts that the daemon runs on.
sign_extended : ℕ → ℕ
sign_extended c = if ltb c 128 then c else c + (2 ^ 64 - 256)

-- The loop over the bytes before the NUL, from the hash so far.
hash_fnv1a : ℕ → List ℕ → ℕ
unfolding sign_extended
hash_fnv1a hash [] = hash
hash_fnv1a hash (c ∷ str) = hash_fnv1a (u64 (bit_xor hash (sign_extended c) * 0x100000001B3)) str

unfoldable pub hash_string_create : List ℕ → ℕ
unfolding hash_fnv1a
hash_string_create str = hash_fnv1a 0xCBF29CE484222325 str

hash_fnv1a-lt : (hash : ℕ) (str : List ℕ) → hash < 2 ^ 64 → hash_fnv1a hash str < 2 ^ 64
unfolding hash_fnv1a
hash_fnv1a-lt hash [] h = h
hash_fnv1a-lt hash (c ∷ str) h =
    hash_fnv1a-lt (u64 (bit_xor hash (sign_extended c) * 0x100000001B3)) str (omega arith)

pub hash_string_create-lt : (str : List ℕ) → hash_string_create str < 2 ^ 64
unfolding hash_string_create
hash_string_create-lt str = hash_fnv1a-lt _ str (omega arith)
