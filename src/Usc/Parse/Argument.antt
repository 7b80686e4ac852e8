-- ===== src/Usc/Parse/Argument.antt =====
-- src/usc/parse.c, `_parse_req_arg`: the seconds that the argument of a request stands for.
use usched.Base.{
  ℕ, ◌+◌, ◌-◌, ◌*◌, ◌/◌, ◌%◌, ◌^◌, Bool, true, false, not, ◌&&◌, ◌||◌, List, ◌++◌, Option, none,
  some, ◌==◌, ltb, leb, if◌then◌else◌, length, take, codes,
}
use usched.Common.Config.{u32}
use usched.Usd.Index.{decimal}
use usched.Usc.Words.{
  Prep, prep_on, prep_to, Adverb, seconds, minutes, hours, days, weeks, months, years, weekdays,
  time, date, datetime, timestamp, same_word,
}

-- What `strtol` says of a word: is all of it a number, `errno` included, is the number below zero, and
-- its magnitude.
pub record Number : Type 0 where
  pub whole : Bool
  pub negative : Bool
  pub val : ℕ

-- `struct tm`: the fields that the function reads or writes, and the others. A field that is written
-- keeps its 32 bits.
pub record Tm (T : Type 0) : Type 0 where
  pub tm_sec : ℕ
  pub tm_min : ℕ
  pub tm_hour : ℕ
  pub tm_mday : ℕ
  pub tm_mon : ℕ
  pub tm_year : ℕ
  pub tm_wday : ℕ
  pub tm_yday : ℕ
  pub tm_rest : T

-- The C library, and `now`, which is `runc.t`. `mktime` is `none` where the function returns -1.
pub record Libc (T : Type 0) : Type 0 where
  pub now : ℕ
  pub strtol : List ℕ → Number
  pub localtime : ℕ → Tm T
  pub mktime : Tm T → Option ℕ
  pub strptime : List ℕ → (format : List ℕ) → Tm T → Option (Tm T)

-- The flags USCHED_REQ_FLAG_MONTHDAY_ALIGN and USCHED_REQ_FLAG_YEARDAY_ALIGN of a request.
pub data Align : Type 0 where
  no_align monthday_align yearday_align : Align

-- The preposition is ON or TO: the adverbial of time comes before the argument.
unfoldable pub adverb_first : Prep → Bool
adverb_first prep_on = true
adverb_first prep_to = true
adverb_first _ = false

accepts_text : Adverb → Bool
accepts_text weekdays = true
accepts_text datetime = true
accepts_text date = true
accepts_text time = true
accepts_text _ = false

-- A `long` that is not negative; the product wraps at 64 bits.
pub as_long : ℕ → Option ℕ
as_long n = if ltb (n % 2 ^ 64) (2 ^ 63) then some (n % 2 ^ 64) else none

aligned_long : ℕ → Align → Option (ℕ × Align)
aligned_long n align = elim (as_long n) [ none ↦ none | some long ↦ some (long, align) ]

-- IN and EVERY: absolute offsets.
pub absolute_arg : Adverb → ℕ → Option (ℕ × Align)
absolute_arg seconds val = aligned_long val no_align
absolute_arg minutes val = aligned_long (val * 60) no_align
absolute_arg hours val = aligned_long (val * 3600) no_align
absolute_arg days val = aligned_long (val * 86400) no_align
absolute_arg weeks val = aligned_long (val * 86400 * 7) no_align
absolute_arg months val = aligned_long (val * 86400 * 30) monthday_align
absolute_arg years val = aligned_long (val * 86400 * 365) yearday_align
absolute_arg date val = none
absolute_arg datetime val = none
absolute_arg timestamp val = none
absolute_arg weekdays val = none
absolute_arg time val = none

-- `(long) (t - runc.t)`, where it is not negative. A time of -1 is none.
pub since : ℕ → Option ℕ → Option (ℕ × Align)
since now none = none
since now (some t) = if ltb t now then none else some (t - now, no_align)

-- Is the argument that day of the week, as a word or as a number?
is_weekday : List ℕ → Number → List ℕ → ℕ → Bool
is_weekday arg n word day = same_word arg word || (not n.negative && (n.val == day))

pub weekday_of : List ℕ → Number → Option ℕ
weekday_of arg n =
    if is_weekday arg n (codes "sunday") 1
    then some 1
    else if is_weekday arg n (codes "monday") 2
    then some 2
    else if is_weekday arg n (codes "tuesday") 3
    then some 3
    else if is_weekday arg n (codes "wednesday") 4
    then some 4
    else if is_weekday arg n (codes "thursday") 5
    then some 5
    else if is_weekday arg n (codes "friday") 6
    then some 6
    else if is_weekday arg n (codes "saturday") 7
    then some 7
    else none

-- The larger unit, where the field has reached the value already.
pub carry_at : (val field : ℕ) → ℕ
carry_at val field = if leb val field then 1 else 0

module _ {T : Type 0} (libc : Libc T) (alloc : ℕ → Bool) where
  -- A time of day, today or tomorrow. The text is cut at the length of its buffer.
  time_arg : Tm T → List ℕ → Option (ℕ × Align)
  time_arg tm arg =
      let len = 4 + 1 + 2 + 1 + 2 + 1 + length arg + 2 in
      let text =
        decimal (1900 + tm.tm_year)
        ++ codes "-"
        ++ decimal (tm.tm_mon + 1)
        ++ codes "-"
        ++ decimal tm.tm_mday
        ++ codes " "
        ++ arg in
      if not (alloc len)
      then none
      else elim (libc.strptime (take (len - 2) text) (codes "%Y-%m-%d %H:%M:%S") tm) [
        | none ↦ none
        | some tm1 ↦ elim (libc.mktime tm1) [
          | none ↦ since libc.now (some 86399)
          | some t ↦ since libc.now (some (if ltb t libc.now then t + 86400 else t))
        ]
      ]

  pub weekday_arg : Tm T → ℕ → Option (ℕ × Align)
  weekday_arg tm val =
      let ahead =
        if ltb tm.tm_wday (val - 1) then (val - 1) - tm.tm_wday else (7 - tm.tm_wday) + (val - 1) in
      since libc.now (
        libc.mktime
          (record tm { tm_mday = tm.tm_mday + ahead; tm_sec = 0; tm_min = 0; tm_hour = 0 }))

  -- ON and TO: relative offsets.
  pub relative_arg : Adverb → Number → List ℕ → Option (ℕ × Align)
  relative_arg adverb n arg =
      let tm = libc.localtime libc.now in
      let from = (λ (tm1 : Tm T). since libc.now (libc.mktime tm1)) in
      let carry = carry_at n.val in
      elim adverb [
        | seconds ↦ from (record tm { tm_min = tm.tm_min + carry tm.tm_sec; tm_sec = u32 n.val })
        | minutes ↦
            from
              (record tm { tm_hour = tm.tm_hour + carry tm.tm_min; tm_sec = 0; tm_min = u32 n.val })
        | hours ↦ from (record tm {
          tm_mday = tm.tm_mday + carry tm.tm_hour;
          tm_sec = 0;
          tm_min = 0;
          tm_hour = u32 n.val;
        })
        | days ↦ from (record tm {
          tm_mon = tm.tm_mon + carry tm.tm_mday;
          tm_sec = 0;
          tm_min = 0;
          tm_hour = 0;
          tm_mday = u32 n.val;
        })
        | weeks ↦ from (record tm {
          tm_year = tm.tm_year + carry (tm.tm_yday / 7);
          tm_sec = 0;
          tm_min = 0;
          tm_hour = 0;
          tm_mon = 0;
          tm_mday = u32 (n.val * 7);
        })
        | months ↦ from (record tm {
          tm_year = tm.tm_year + carry tm.tm_mon;
          tm_sec = 0;
          tm_min = 0;
          tm_hour = 0;
          tm_mday = 1;
          tm_mon = u32 n.val;
        })
        | years ↦
            if leb n.val tm.tm_year
            then none
            else from (record tm {
              tm_sec = 0;
              tm_min = 0;
              tm_hour = 0;
              tm_mon = 0;
              tm_mday = 1;
              tm_year = u32 n.val;
            })
        | date ↦ elim (libc.strptime arg (codes "%Y-%m-%d") tm) [
          | none ↦ none
          | some tm1 ↦ from (record tm1 { tm_sec = 0; tm_min = 0; tm_hour = 0 })
        ]
        | datetime ↦ elim (libc.strptime arg (codes "%Y-%m-%d %H:%M:%S") tm) [
          | none ↦ none
          | some tm1 ↦ from tm1
        ]
        | timestamp ↦ since libc.now (some n.val)
        | time ↦ time_arg tm arg
        | weekdays ↦ elim (weekday_of arg n) [ none ↦ none | some day ↦ weekday_arg tm day ]
      ]

  -- The argument in seconds, where it is not negative, and the flag that is set.
  unfoldable pub parse_req_arg : (adverb_is_first : Bool) → Adverb → List ℕ → Option (ℕ × Align)
  unfolding absolute_arg aligned_long as_long accepts_text
  parse_req_arg adverb_is_first adverb arg =
      let n = libc.strtol arg in
      if (not n.whole || n.negative) && not (accepts_text adverb)
      then none
      else if adverb_is_first
      then relative_arg adverb n arg
      else absolute_arg adverb n.val
