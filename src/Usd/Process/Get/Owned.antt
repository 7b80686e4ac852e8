-- ===== src/Usd/Process/Get/Owned.antt =====
-- What a request to get entries sends.
use mathlib.Core.Path.{subst}
use mathlib.Core.List.{append-nil, append_assoc}
use usched.Base.{
  ℕ, ◌≡◌, refl, sym, Bool, false, not, ◌||◌, List, [], ◌∷◌, ◌++◌, none, ◌==◌, leb, ok, arith,
  Outcome-cases, Bool-cases, inl, inr, zeros,
}
use usched.Common.Config.{session_max, output_max}
use usched.Common.Entry.{Entry, entry_unset_payload}
use usched.Common.Entry.Payload.{Cipher}
use usched.Common.Str.{strlen}
use usched.Usd.Libs.{Cll, Psched}
use usched.Usd.Runtime.{Rund}
use usched.Usd.Schedule.{schedule_entry_get_copy}
use usched.Usd.Process.Get.{cleared, copy_each, entry_bytes}

-- A copy that may be sent to the user `uid`.
pub record MayBeSent (uid : ℕ) (e : Entry) : Type 0 where
  pub owner : e.uid ≡ uid
  pub session : e.session ≡ zeros session_max
  pub payload : e.payload ≡ none
  pub timer : e.psched_id ≡ 0
  pub output : (leb output_max e.outdata_len ≡ false) × (e.outdata_len ≡ strlen e.outdata)

abbrev pub AllMayBeSent : ℕ → List Entry → Type 0
AllMayBeSent uid [] = Unit
AllMayBeSent uid (e ∷ l) = MayBeSent uid e × AllMayBeSent uid l

AllMayBeSent-append :
    (uid : ℕ) (l : List Entry) (e : Entry)
    → AllMayBeSent uid l
    → MayBeSent uid e
    → AllMayBeSent uid (l ++ e ∷ [])
AllMayBeSent-append uid [] e h m = (m, tt)
AllMayBeSent-append uid (x ∷ l) e h m = (h.0, AllMayBeSent-append uid l e h.1 m)

-- The buffer holds a count and the copies, in order.
abbrev pub bytes_of_all : List Entry → List ℕ
bytes_of_all [] = []
bytes_of_all (e ∷ l) = entry_bytes e ++ bytes_of_all l

cleared-MayBeSent :
    (uid : ℕ) (copy : Entry)
    → not (copy.uid == uid) ≡ false
    → (leb output_max copy.outdata_len || not (copy.outdata_len == strlen copy.outdata)) ≡ false
    → MayBeSent uid (cleared copy)
unfolding cleared entry_unset_payload
cleared-MayBeSent uid copy mine fits = record {
  owner = ground arith;
  session = refl;
  payload = refl;
  timer = refl;
  output = ground arith;
}

bytes_of_all-append :
    (l : List Entry) (e : Entry) → bytes_of_all (l ++ e ∷ []) ≡ bytes_of_all l ++ entry_bytes e
bytes_of_all-append [] e = append-nil (entry_bytes e)
bytes_of_all-append (x ∷ l) e =
    rw (bytes_of_all-append l e)
      (sym (append_assoc (entry_bytes x) (bytes_of_all l) (entry_bytes e)))

-- The copies so far, and the buffer: it starts with the bytes `front`, and the copies follow in order.
pub record IsGathered (uid : ℕ) (front : List ℕ) (gathered : List Entry × List ℕ) : Type 0 where
  pub owned : AllMayBeSent uid gathered.0
  pub layout : gathered.1 ≡ front ++ bytes_of_all gathered.0

gather :
    (uid : ℕ) (front : List ℕ) (copies : List Entry) (buf : List ℕ) (e : Entry)
    → IsGathered uid front (copies, buf)
    → MayBeSent uid e
    → IsGathered uid front (copies ++ e ∷ [], buf ++ entry_bytes e)
gather uid front copies buf e g m = record {
  owned = AllMayBeSent-append uid copies e g.owned m;
  layout =
      rw (g.layout, bytes_of_all-append copies e)
        (append_assoc front (bytes_of_all copies) (entry_bytes e));
}

module _ {P S : Type 0} (cll : Cll P) (psched : Psched S) (alloc : ℕ → Bool) (fresh : ℕ → List ℕ)
    (cipher : Cipher) (garbage : ℕ → ℕ) (sizeof_entry : ℕ) (uid : ℕ) (r : Rund P S)
    (front : List ℕ) where
  -- Whatever ids a user asks for: if the loop succeeds, then every copy that it gathers is of an entry of
  -- that user, with its session zeroed, without payload and timer, and with an output as long as it
  -- says; and the buffer has what it started with, and then these copies in order.
  pub copy_each-IsGathered :
      (ids : List ℕ) (copies : List Entry) (buf : List ℕ) (gathered : List Entry × List ℕ)
      → IsGathered uid front (copies, buf)
      → copy_each cll psched alloc fresh cipher garbage sizeof_entry uid r ids copies buf
        ≡ ok gathered
      → IsGathered uid front gathered
  unfolding copy_each
  copy_each-IsGathered [] copies buf gathered g h = subst (IsGathered uid front) (cc) g
  copy_each-IsGathered (id ∷ ids) copies buf gathered g h =
      elim (Outcome-cases (schedule_entry_get_copy cll alloc sizeof_entry r id)) [
        | inr (x, refused) ↦
            copy_each-IsGathered ids copies buf gathered g (ground (arith, refused))
        | inl (copy, found) ↦ elim (Bool-cases (not (copy.uid == uid))) [
          | inl foreign ↦ copy_each-IsGathered ids copies buf gathered g (ground (arith, found))
          | inr mine ↦
              elim (Bool-cases (
                leb output_max copy.outdata_len || not (copy.outdata_len == strlen copy.outdata))) [
                  | inl odd ↦ copy_each-IsGathered ids copies buf gathered g (ground (arith, found))
                  | inr fits ↦
                      copy_each-IsGathered ids (copies ++ cleared copy ∷ [])
                        (buf ++ entry_bytes (cleared copy)) gathered
                        (gather uid front copies buf (cleared copy) g
                          (cleared-MayBeSent uid copy mine fits))
                        (ground (arith, found))
                ]
        ]
      ]
