-- ===== src/Common/Entry/Payload.antt =====
-- src/common/entry.c: encryption and decryption of the payload.
use usched.Base.{
  ℕ, ◌+◌, ◌-◌, ◌^◌, ◌<◌, ◌≡◌, Bool, true, not, List, [], ◌++◌, Option, none, some, if◌then◌else◌,
  length, take, take_all, Option-cases, inl, inr, Status, ok, err, Errno, arith,
}
use usched.Common.Config.{u32, u64}
use usched.Common.Entry.{Entry}

-- The cipher of libpsec (ChaCha20-Poly1305): it adds `extra` bytes, and fails with an `errno`.
pub record Cipher : Type 0 where
  pub extra : ℕ
  pub encrypt : (key : List ℕ) (nonce : ℕ) (plain : List ℕ) → Option (List ℕ)
  pub decrypt : (key : List ℕ) (nonce : ℕ) (enc : List ℕ) → Option (List ℕ)
  pub failure : Errno

unfoldable pub payload_bytes : Entry → List ℕ
payload_bytes entry = elim entry.payload [ none ↦ [] | some p ↦ take entry.psize p ]

next_nonce : Entry → Entry
next_nonce entry = record entry {
  crypto = record entry.crypto { nonce = u64 (entry.crypto.nonce + 1) };
}

-- `fresh n` is what a new buffer of n bytes holds.
module _ (alloc : ℕ → Bool) (fresh : ℕ → List ℕ) (cipher : Cipher) where
  -- The size is computed in 32 bits without a sign.
  unfoldable pub entry_payload_decrypt : Entry → Entry × Status
  unfolding next_nonce payload_bytes
  entry_payload_decrypt entry =
      if not (alloc (u32 (entry.psize + 2 ^ 32 - cipher.extra)))
      then (entry, err Errno.enomem)
      else let entry' = next_nonce entry in
        elim (cipher.decrypt entry'.crypto.agreed_key entry'.crypto.nonce (payload_bytes entry')) [
          | none ↦ (entry', err cipher.failure)
          | some plain ↦ (record entry' { psize = u32 (length plain); payload = some plain }, ok tt)
        ]

  -- `lpad` bytes are left free in front of the encrypted text.
  unfoldable pub entry_payload_encrypt : Entry → ℕ → Entry × Status
  unfolding next_nonce payload_bytes
  entry_payload_encrypt entry lpad =
      if not (alloc (lpad + entry.psize + cipher.extra))
      then (entry, err Errno.enomem)
      else let entry' = next_nonce entry in
        elim (cipher.encrypt entry'.crypto.agreed_key entry'.crypto.nonce (payload_bytes entry')) [
          | none ↦ (entry', err cipher.failure)
          | some enc ↦ (
            record entry' { psize = u32 (length enc + lpad); payload = some (fresh lpad ++ enc) },
            ok tt,
          )
        ]

-- What the cipher promises: a decryption with the key and the nonce of the encryption gives the text
-- back, and an encrypted text is `extra` bytes longer.
pub record IsSound (cipher : Cipher) : Type 0 where
  pub undo :
      (key : List ℕ) (nonce : ℕ) (p c : List ℕ)
      → cipher.encrypt key nonce p ≡ some c
      → cipher.decrypt key nonce c ≡ some p
  pub grows :
      (key : List ℕ) (nonce : ℕ) (p c : List ℕ)
      → cipher.encrypt key nonce p ≡ some c
      → length c ≡ length p + cipher.extra

-- What the receiver takes over from the sender: the encrypted payload, the key and the nonce.
pub record IsReceived (sent sender receiver : Entry) : Type 0 where
  pub payload : receiver.payload ≡ sent.payload
  pub psize : receiver.psize ≡ sent.psize
  pub agreed_key : receiver.crypto.agreed_key ≡ sender.crypto.agreed_key
  pub nonce : receiver.crypto.nonce ≡ sender.crypto.nonce

module _ (fresh : ℕ → List ℕ) (cipher : Cipher) (sound : IsSound cipher)
    (nothing : fresh 0 ≡ []) where
  abbrev always : ℕ → Bool
  always n = true

  abbrev sent : Entry → Entry
  sent e = (entry_payload_encrypt always fresh cipher e 0).0

  -- With a cipher that keeps its promises, with memory, and for a text that fits 32 bits with what the
  -- cipher adds: a payload that the sender encrypts with no padding is what the receiver gets by decrypting with
  -- the same key and the same nonce.
  pub decrypt-encrypt :
      (e r : Entry) (plain : List ℕ)
      → e.payload ≡ some plain
      → e.psize ≡ length plain
      → length plain + cipher.extra < 2 ^ 32
      → (entry_payload_encrypt always fresh cipher e 0).1 ≡ ok tt
      → IsReceived (sent e) e r
      → ((entry_payload_decrypt always fresh cipher r).0.payload ≡ some plain)
        × ((entry_payload_decrypt always fresh cipher r).0.psize ≡ length plain)
        × ((entry_payload_decrypt always fresh cipher r).1 ≡ ok tt)
  unfolding entry_payload_encrypt entry_payload_decrypt
  decrypt-encrypt e r plain hp hs fits done got =
      let key = e.crypto.agreed_key in
      let nonce = u64 (e.crypto.nonce + 1) in
      elim (Option-cases (cipher.encrypt key nonce plain)) [
        | inl e0 ↦ ground (arith, take_all plain)
        | inr (enc, e1) ↦ ground (
          arith,
          sound.undo key nonce plain enc e1,
          sound.grows key nonce plain enc e1,
          take_all plain,
          take_all enc,
          nothing,
        )
      ]
