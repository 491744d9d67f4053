-- ===== src/Utils/HoursLaws.antt =====
-- The times of business in common/utils hold the moments that they should, and the days between two
-- moments.
use soelib.Common.{
  ℕ, suc, ◌+◌, ◌-◌, ◌%◌, ◌<◌, ◌≤◌, ◌⊎◌, ◌↔◌, ◌≡◌, some, Bool, true, false, leb, ltb, ◌==◌,
  Bool-cases, refl, ap, inl, inr, arith, ltb→lt, leb→le, ==_iff,
}
use soelib.Common.Int.{pos}
use soelib.Utils.Hours.{
  Moment, at, instant, day_seconds, is_match_time, get_bussiness_date_time,
  get_shop_bussiness_date_time, get_business_date_dto, window, time_sub_days,
}

-- The window of a moment holds it exactly if its time is within the hours.
pub get_bussiness_date_time-is_match_time :
    (now : Moment) (start end : ℕ)
    → 0 < now.day
    → now.time < day_seconds
    → start < day_seconds
    → end < day_seconds
    → (is_match_time (some now) (some start) (some end) ≡ true) ↔ (
        (instant (get_bussiness_date_time now start end).0 ≤ instant now)
        × (instant now ≤ instant (get_bussiness_date_time now start end).1))
unfolding is_match_time get_bussiness_date_time
get_bussiness_date_time-is_match_time now start end d n s e = ground arith

-- The window of a query for days in their order begins before it ends.
pub get_shop_bussiness_date_time-lt :
    (now : Moment) (shop_start shop_end start_date end_date : ℕ) (is_minus_day : Bool)
    → start_date ≤ end_date
    → shop_start < day_seconds
    → (instant
          (get_shop_bussiness_date_time now shop_start shop_end start_date end_date is_minus_day).0
        < instant
            (get_shop_bussiness_date_time now shop_start shop_end start_date end_date
              is_minus_day).1)
unfolding get_shop_bussiness_date_time
get_shop_bussiness_date_time-lt now shop_start shop_end start_date end_date is_minus_day h s =
    ground arith

-- After midnight, of a night that has not ended, the window of a query for today is a day longer than
-- that of the moment.
pub get_business_date_dto-late :
    (now : Moment) (start end : ℕ)
    → 0 < now.day
    → end < start
    → now.time ≤ end
    → get_business_date_dto now (some now.day) (some now.day) (some start) (some end) true
      ≡ window
          (get_bussiness_date_time now start end).0
          (at (suc (get_bussiness_date_time now start end).1.day) end)
unfolding get_business_date_dto get_bussiness_date_time
get_business_date_dto-late now start end d h n =
    let crosses : leb start end ≡ false = ground arith in
    let not_less : ltb start end ≡ false = ground arith in
    let night : ltb end now.time ≡ false = ground arith in
    rw (crosses, not_less, night)
      (elim (Bool-cases ((now.day - 1) == now.day)) [ inl e ↦ rw e refl | inr e ↦ rw e refl ])

-- The days between two moments are those of the calendar, or one more.
pub time_sub_days-days :
    (t1 t2 : Moment)
    → t1.time < day_seconds
    → t2.time < day_seconds
    → instant t2 < instant t1
    → (time_sub_days t1 t2 ≡ pos (t1.day - t2.day))
      ⊎ (time_sub_days t1 t2 ≡ pos (t1.day - t2.day + 1))
unfolding time_sub_days
time_sub_days-days t1 t2 a b h =
    let later : leb (instant t1) (instant t2) ≡ false = ground arith in
    let gap = instant t1 - instant t2 in
    rw later (elim (Bool-cases (ltb gap day_seconds)) [
      | inl f ↦
          let short : gap < day_seconds = ltb→lt gap day_seconds f in
          rw f (elim (Bool-cases (t1.day == t2.day)) [
            | inl g ↦ rw g (inl (ap pos (omega (arith, (==_iff t1.day t2.day).0 g))))
            | inr g ↦
                let other : (t1.day < t2.day) ⊎ (t2.day < t1.day) = ground (arith, g) in
                rw g (inl (ap pos (omega (arith, short, h))))
          ])
      | inr f ↦
          let long : day_seconds ≤ gap = ground (arith, f) in
          rw f (elim (Bool-cases (gap % day_seconds == 0)) [
            | inl g ↦
                let whole = (==_iff (gap % day_seconds) 0).0 g in
                rw g (inl (ap pos (omega (arith, whole, long))))
            | inr g ↦ rw g (elim (Bool-cases (leb t1.time t2.time)) [
              | inl k ↦
                  let whole : 0 < gap % day_seconds = ground (arith, g) in
                  inl (ap pos (omega (arith, leb→le t1.time t2.time k, whole, long)))
              | inr k ↦
                  let whole : 0 < gap % day_seconds = ground (arith, g) in
                  let after : t2.time < t1.time = ground (arith, k) in
                  inr (ap pos (omega (arith, after, whole, long)))
            ])
          ])
    ])
