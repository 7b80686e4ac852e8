-- ===== src/Usd/Serialize/Overrun.antt =====
-- src/usd/entry.c, `entry_daemon_unserialize`: the test on the length of the output data.
use usched.Base.{
  ℕ, zero, suc, ◌+◌, ◌≤◌, ◌≡◌, ◌≢◌, ◌↔◌, ◌∙◌, refl, ap, Bool, true, List, [], ◌∷◌, length, take,
  drop, arith,
}
use usched.Common.Config.{output_max}
use usched.Common.Entry.{Entry}
use usched.Common.Entry.Signature.{of_le_bytes}
use usched.Usd.Serialize.RoundTrip.{head_length}
use usched.Usd.Serialize.{
  overrun, bytes_at, advance, int_at, parse_head, parse_fixed, sizeof_fixed, load_subj,
  entry_daemon_unserialize,
}

drop-drop : (m n : ℕ) (l : List ℕ) → drop n (drop m l) ≡ drop (m + n) l
drop-drop zero n l = let e : zero + n ≡ n = omega arith in rw e refl
drop-drop (suc m) zero [] = let e : suc m + zero ≡ suc m = omega arith in rw e refl
drop-drop (suc m) (suc n) [] = let e : suc m + suc n ≡ suc (m + suc n) = omega arith in rw e refl
drop-drop (suc m) n (x ∷ l) =
    let e : suc m + n ≡ suc (m + n) = omega arith in rw e (drop-drop m n l)

-- A part of the start of a list.
take-drop-take :
    (w n m : ℕ) (l : List ℕ) → n + w ≤ m → take w (drop n (take m l)) ≡ take w (drop n l)
take-drop-take zero zero m l h = refl
take-drop-take (suc w) zero zero l h = absurd (omega (arith, h))
take-drop-take (suc w) zero (suc m) [] h = refl
take-drop-take (suc w) zero (suc m) (x ∷ l) h =
    ap (λ t. x ∷ t) (take-drop-take w zero m l (omega (arith, h)))
take-drop-take w (suc n) zero l h = absurd (omega (arith, h))
take-drop-take w (suc n) (suc m) [] h = refl
take-drop-take w (suc n) (suc m) (x ∷ l) h = take-drop-take w n m l (omega (arith, h))

-- The length of the output data as the file has it: the four bytes at the offset 56.
abbrev pub stored_length : List ℕ → ℕ
stored_length file = of_le_bytes (take 4 (drop 56 file))

module _ (digest_size : ℕ) where
  parse_fixed-length :
      (file : List ℕ)
      → (parse_fixed digest_size (bytes_at (sizeof_fixed digest_size) file)).outdata_len
        ≡ stored_length file
  unfolding parse_fixed parse_head int_at advance bytes_at
  parse_fixed-length file =
      let b = take (sizeof_fixed digest_size) file in
      let at_56 : (parse_head digest_size b).1 ≡ drop 56 b =
        rw
          (
            drop-drop 8 4 b,
            drop-drop 12 4 b,
            drop-drop 16 4 b,
            drop-drop 20 4 b,
            drop-drop 24 4 b,
            drop-drop 28 4 b,
            drop-drop 32 4 b,
            drop-drop 36 4 b,
            drop-drop 40 8 b,
            drop-drop 48 8 b,
          )
          refl in
      ap (λ t. of_le_bytes (take 4 t)) at_56
      ∙ ap of_le_bytes (take-drop-take 4 56 (sizeof_fixed digest_size) file (omega arith))

  module _ (alloc : ℕ → Bool) (blake2s : List ℕ → List ℕ) where
    load_subj-in_bounds :
        (e : Entry) (file : List ℕ) → load_subj alloc blake2s digest_size e file ≢ overrun
    unfolding load_subj
    load_subj-in_bounds e file h = ground (arith, h)

    -- The load of an entry writes behind the end of its output data exactly if there is memory, the file
    -- holds the fixed part, and the length of the output data in the file is at least the size of their
    -- buffer.
    pub unserialize_overruns :
        (sizeof_entry : ℕ) (file : List ℕ)
        → (entry_daemon_unserialize alloc blake2s digest_size sizeof_entry file ≡ overrun) ↔ (
            (alloc sizeof_entry ≡ true)
            × (sizeof_fixed digest_size ≤ length file)
            × (output_max ≤ stored_length file))
    unfolding entry_daemon_unserialize
    unserialize_overruns sizeof_entry file =
        let buf = bytes_at (sizeof_fixed digest_size) file in
        let entry = parse_fixed digest_size buf in
        let rest = advance (sizeof_fixed digest_size) file in
        let same = parse_fixed-length file in
        let none_yet = head_length digest_size buf in
        let bounded = load_subj-in_bounds entry rest in
        (
          λ h. (ground (arith, h), ground (arith, h), ground (arith, h, same, none_yet, bounded)),
          λ (room, enough, long). ground (arith, room, enough, long, same, none_yet),
        )
