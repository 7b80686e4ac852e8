-- ===== src/Common/Entry/Tests.antt =====
-- Flags, payloads and signatures of the sample entry.
use usched.Base.{ℕ, ◌≡◌, ◌↔◌, refl, sym, Bool, true, List, [], some, ok, Errno, codes, arith}
use usched.Common.Entry.{Entry}
use usched.Common.Entry.Samples.{sample}
use usched.Common.Entry.Payload.{
  Cipher, IsSound, entry_payload_encrypt, entry_payload_decrypt, decrypt-encrypt,
}
use usched.Common.Entry.Signature.{
  entry_update_signature, entry_check_signature, SameSigned, signature_binds,
}

-- A cipher that hides nothing.
abbrev plain_cipher : Cipher
plain_cipher = record {
  extra = 0;
  encrypt = λ key nonce p. some p;
  decrypt = λ key nonce c. some c;
  failure = Errno.einval;
}

plain_cipher-IsSound : IsSound plain_cipher
plain_cipher-IsSound = record {
  undo = λ key nonce p c h. sym h;
  grows = λ key nonce p c h. ground arith;
}

abbrev all : ℕ → Bool
all n = true

abbrev nothing : ℕ → List ℕ
nothing n = []

abbrev sender : Entry
sender = record (sample 0) { payload = some (codes "id"); psize = 2 }

abbrev encrypted : Entry
encrypted = record sender { crypto = record { context = []; agreed_key = codes "key"; nonce = 1 } }

abbrev receiver : Entry
receiver = sender

encrypts : entry_payload_encrypt all nothing plain_cipher sender 0 ≡ (encrypted, ok tt)
unfolding entry_payload_encrypt
encrypts = refl

decrypt-encrypt_example :
    ((entry_payload_decrypt all nothing plain_cipher receiver).0.payload ≡ some (codes "id"))
    × ((entry_payload_decrypt all nothing plain_cipher receiver).0.psize ≡ 2)
    × ((entry_payload_decrypt all nothing plain_cipher receiver).1 ≡ ok tt)
unfolding entry_payload_encrypt
decrypt-encrypt_example =
    decrypt-encrypt nothing plain_cipher plain_cipher-IsSound refl sender receiver (codes "id") refl
      refl (omega arith) refl
      (record { payload = refl; psize = refl; agreed_key = refl; nonce = refl })

abbrev plain_hash : List ℕ → List ℕ
plain_hash bytes = bytes

abbrev forged : Entry
forged = record (sample 0) {
  uid = 0;
  signature = (entry_update_signature plain_hash (sample 0)).signature;
}

signature_binds_example :
    (entry_check_signature plain_hash forged ≡ true) ↔ SameSigned (sample 0) forged
signature_binds_example =
    signature_binds plain_hash (sample 0) forged
      (record { id = omega arith; uid = omega arith; gid = omega arith; create_time = omega arith })
      (record { id = omega arith; uid = omega arith; gid = omega arith; create_time = omega arith })
      (λ h. h) refl
