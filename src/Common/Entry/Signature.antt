-- ===== src/Common/Entry/Signature.antt =====
-- src/common/entry.c: the signature of an entry.
use native.Mathlib.Nat.{pow-suc}
use usched.Base.{
  ℕ, zero, suc, ◌+◌, ◌*◌, ◌/◌, ◌%◌, ◌^◌, ◌<◌, ◌≡◌, ◌↔◌, ◌∙◌, refl, sym, ap, length, length-append,
  Bool, true, false, ◌&&◌, List, [], ◌∷◌, ◌++◌, none, some, ◌==◌, take, arith,
}
use usched.Common.Entry.{Entry}

-- The bytes of an integer in memory, on the little-endian hosts that the daemon runs on.
unfoldable pub le_bytes : ℕ → ℕ → List ℕ
le_bytes zero n = []
le_bytes (suc width) n = (n % 256) ∷ le_bytes width (n / 256)

unfoldable pub bytes_eq : List ℕ → List ℕ → Bool
bytes_eq [] [] = true
bytes_eq [] (y ∷ ys) = false
bytes_eq (x ∷ xs) [] = false
bytes_eq (x ∷ xs) (y ∷ ys) = (x == y) && bytes_eq xs ys

-- The first `subj_size` bytes at `subj`.
unfoldable pub subj_bytes : Entry → List ℕ
subj_bytes entry = elim entry.subj [ none ↦ [] | some s ↦ take entry.subj_size s ]

pub signed_bytes : Entry → List ℕ
unfolding le_bytes subj_bytes
signed_bytes entry =
    le_bytes 8 entry.id
    ++ (le_bytes 4 entry.uid
        ++ (le_bytes 4 entry.gid ++ (subj_bytes entry ++ le_bytes 4 entry.create_time)))

-- `blake2s` stands for libpsec: the hash of all that the calls of `update` are handed.
module _ (blake2s : List ℕ → List ℕ) where
  entry_digest : Entry → List ℕ
  unfolding signed_bytes
  entry_digest entry = blake2s (signed_bytes entry)

  unfoldable pub entry_update_signature : Entry → Entry
  unfolding entry_digest
  entry_update_signature entry = record entry { signature = entry_digest entry }

  unfoldable pub entry_check_signature : Entry → Bool
  unfolding entry_digest bytes_eq
  entry_check_signature entry = bytes_eq entry.signature (entry_digest entry)

pub bytes_eq_refl : (l : List ℕ) → bytes_eq l l ≡ true
unfolding bytes_eq
bytes_eq_refl [] = refl
bytes_eq_refl (x ∷ xs) = ground (arith, bytes_eq_refl xs)

pub eq_of_bytes_eq : (xs ys : List ℕ) → bytes_eq xs ys ≡ true → xs ≡ ys
unfolding bytes_eq
eq_of_bytes_eq [] [] h = refl
eq_of_bytes_eq [] (y ∷ ys) h = cc
eq_of_bytes_eq (x ∷ xs) [] h = cc
eq_of_bytes_eq (x ∷ xs) (y ∷ ys) h = ground (arith, eq_of_bytes_eq xs ys)

-- The fields have the sizes of their types.
pub record IsSized (e : Entry) : Type 0 where
  pub id : e.id < 2 ^ 64
  pub uid : e.uid < 2 ^ 32
  pub gid : e.gid < 2 ^ 32
  pub create_time : e.create_time < 2 ^ 32

pub length-le_bytes : (width n : ℕ) → length (le_bytes width n) ≡ width
unfolding le_bytes
length-le_bytes zero n = refl
length-le_bytes (suc width) n = ap suc (length-le_bytes width (n / 256))

-- The integer that the bytes stand for.
unfoldable pub of_le_bytes : List ℕ → ℕ
of_le_bytes [] = 0
of_le_bytes (b ∷ l) = b + 256 * of_le_bytes l

pub of_le_bytes-le_bytes : (width n : ℕ) → n < 256 ^ width → of_le_bytes (le_bytes width n) ≡ n
unfolding of_le_bytes le_bytes
of_le_bytes-le_bytes zero n h = omega arith
of_le_bytes-le_bytes (suc width) n h = omega (
  arith,
  pow-suc 256 width,
  of_le_bytes-le_bytes width (n / 256) (omega (arith, pow-suc 256 width)),
)

le_bytes_injective :
    (width : ℕ) {n m : ℕ}
    → n < 256 ^ width
    → m < 256 ^ width
    → le_bytes width n ≡ le_bytes width m
    → n ≡ m
le_bytes_injective width {n} {m} hn hm e =
    cc (of_le_bytes-le_bytes width n hn, of_le_bytes-le_bytes width m hm)

-- Two splits of one list whose first parts are equally long.
split_left :
    (xs ys us vs : List ℕ) → length xs ≡ length us → xs ++ ys ≡ us ++ vs → (xs ≡ us) × (ys ≡ vs)
split_left [] ys [] vs h e = (refl, e)
split_left [] ys (u ∷ us) vs h e = absurd (omega arith)
split_left (x ∷ xs) ys [] vs h e = absurd (omega arith)
split_left (x ∷ xs) ys (u ∷ us) vs h e =
    let (same, rest) = split_left xs ys us vs (omega arith) (cc) in (cc, rest)

split_right :
    (xs ys us vs : List ℕ) → length ys ≡ length vs → xs ++ ys ≡ us ++ vs → (xs ≡ us) × (ys ≡ vs)
split_right xs ys us vs h e =
    split_left xs ys us vs
      (omega (arith, ap length e, length-append {0} xs ys, length-append {0} us vs)) e

-- What the signature covers.
pub record SameSigned (a b : Entry) : Type 0 where
  pub id : a.id ≡ b.id
  pub uid : a.uid ≡ b.uid
  pub gid : a.gid ≡ b.gid
  pub subj : subj_bytes a ≡ subj_bytes b
  pub create_time : a.create_time ≡ b.create_time

SameSigned-of_bytes :
    (a b : Entry) → IsSized a → IsSized b → signed_bytes a ≡ signed_bytes b → SameSigned a b
unfolding signed_bytes
SameSigned-of_bytes a b ha hb e =
    let (e_id, e1) = split_left (le_bytes 8 a.id) _ (le_bytes 8 b.id) _ (width 8 a.id b.id) e in
    let (e_uid, e2) =
      split_left (le_bytes 4 a.uid) _ (le_bytes 4 b.uid) _ (width 4 a.uid b.uid) e1 in
    let (e_gid, e3) =
      split_left (le_bytes 4 a.gid) _ (le_bytes 4 b.gid) _ (width 4 a.gid b.gid) e2 in
    let (e_subj, e_time) =
      split_right (subj_bytes a) _ (subj_bytes b) _ (width 4 a.create_time b.create_time) e3 in
    record {
      id = le_bytes_injective 8 ha.id hb.id e_id;
      uid = le_bytes_injective 4 ha.uid hb.uid e_uid;
      gid = le_bytes_injective 4 ha.gid hb.gid e_gid;
      subj = e_subj;
      create_time = le_bytes_injective 4 ha.create_time hb.create_time e_time;
    }
  where
    width : (w n m : ℕ) → length (le_bytes w n) ≡ length (le_bytes w m)
    width w n m = length-le_bytes w n ∙ sym (length-le_bytes w m)

bytes_of_SameSigned : (a b : Entry) → SameSigned a b → signed_bytes a ≡ signed_bytes b
unfolding signed_bytes
bytes_of_SameSigned a b same = cc (same.id, same.uid, same.gid, same.subj, same.create_time)

-- The check reads what is signed, and the signature.
pub check_same :
    (blake2s : List ℕ → List ℕ) (a b : Entry)
    → SameSigned a b
    → a.signature ≡ b.signature
    → entry_check_signature blake2s a ≡ entry_check_signature blake2s b
unfolding entry_check_signature
check_same blake2s a b same signed = cc (bytes_of_SameSigned a b same)

module _ (blake2s : List ℕ → List ℕ) where
  -- A fresh signature is accepted.
  pub check-update :
      (e : Entry) → entry_check_signature blake2s (entry_update_signature blake2s e) ≡ true
  unfolding entry_check_signature entry_update_signature
  check-update e = bytes_eq_refl (entry_digest blake2s e)

  -- For entries whose fields have the sizes of their types, and where the hash has no collision between
  -- the two, an entry that carries the signature of
  -- another one is accepted exactly if the two agree on all that is signed: the id, the owner, the
  -- command and the creation time.
  pub signature_binds :
      (a b : Entry)
      → IsSized a
      → IsSized b
      → (blake2s (signed_bytes a) ≡ blake2s (signed_bytes b) → signed_bytes a ≡ signed_bytes b)
      → b.signature ≡ (entry_update_signature blake2s a).signature
      → (entry_check_signature blake2s b ≡ true) ↔ SameSigned a b
  unfolding entry_check_signature entry_update_signature
  signature_binds a b ha hb no_collision signed = (
    λ accepted.
        SameSigned-of_bytes a b ha hb (no_collision (sym signed ∙ eq_of_bytes_eq _ _ accepted)),
    λ same.
        let same_hash : b.signature ≡ entry_digest blake2s b =
          signed ∙ ap blake2s (bytes_of_SameSigned a b same) in
        rw same_hash (bytes_eq_refl (entry_digest blake2s b)),
  )
