-- ===== src/Utils/Hours.antt =====
-- The times of business in common/utils: `IsMatchTime`, `IsNearStartTime`, `TimeSubDays` and others of date.go, and
-- business_date.go. A text "15:04:05" is the number of its seconds and a text "2006-01-02" the number
-- of its day: both are compared, as texts, in this order. The zone has no change of its clocks, and
-- the texts of a query parse where a parameter does not say that they fail.
use soelib.Common.{
  ℕ, suc, ◌+◌, ◌-◌, ◌*◌, ◌/◌, ◌%◌, Option, none, some, Bool, true, false, ◌&&◌, ◌||◌, leb, ltb,
  ◌==◌, if◌then◌else◌,
}
use soelib.Common.Int.{ℤ, pos, negsuc}

abbrev pub day_seconds : ℕ
day_seconds = 86400

-- A day, and the seconds since it began.
pub record Moment : Type 0 where
  pub day : ℕ
  pub time : ℕ

abbrev pub at : ℕ → ℕ → Moment
at day time = record { day = day; time = time }

-- Seconds since the first day.
abbrev pub instant : Moment → ℕ
instant t = t.day * day_seconds + t.time

unfoldable pub is_match_time : Option Moment → Option ℕ → Option ℕ → Bool
is_match_time none start end = false
is_match_time (some t) none none = true
is_match_time (some t) none (some end) = leb t.time end
is_match_time (some t) (some start) none = leb start t.time
is_match_time (some t) (some start) (some end) =
    let search_time = t.time in
    if leb start end
    then leb start search_time && leb search_time end
    else leb start search_time && leb search_time 86399 || leb 0 search_time && leb search_time end

unfoldable pub get_bussiness_date_time : Moment → ℕ → ℕ → Moment × Moment
get_bussiness_date_time now start end =
    if leb start end
    then (at now.day start, at now.day end)
    else if ltb end now.time
    then (at now.day start, at (suc now.day) end)
    else (at (now.day - 1) start, at now.day end)

-- The dates of the query after the day is taken off.
abbrev pub minus_day : Moment → ℕ → ℕ → ℕ → Bool → ℕ × ℕ
minus_day now shop_start start_date end_date is_minus_day =
    if is_minus_day && start_date == end_date && start_date == now.day && ltb now.time shop_start
    then (start_date - 1, end_date - 1)
    else (start_date, end_date)

-- The end has ".999" seconds more.
unfoldable pub get_shop_bussiness_date_time : Moment → ℕ → ℕ → ℕ → ℕ → Bool → Moment × Moment
get_shop_bussiness_date_time now shop_start shop_end start_date end_date is_minus_day =
    let dates = minus_day now shop_start start_date end_date is_minus_day in
    let the_date = if dates.0 == dates.1 then dates.0 else dates.1 in
    (
      at dates.0 shop_start,
      if ltb shop_start shop_end then at dates.1 shop_end else at (suc the_date) shop_end,
    )

pub data QueryError : Type 0 where
  bad_start_date bad_end_date bad_start_time bad_end_time : QueryError

pub data Window : Type 0 where
  refused : QueryError → Window
  window : Moment → Moment → Window

-- The dates that a query uses: `isMinusDay` looks at the time of closing.
abbrev pub dto_dates : Moment → ℕ → ℕ → ℕ → Bool → ℕ × ℕ
dto_dates now start_date end_date end false = (start_date, end_date)
dto_dates now start_date end_date end true =
    if ltb end now.time then (start_date, suc end_date) else (start_date - 1, end_date)

-- `none` is a text that does not parse.
unfoldable pub get_business_date_dto :
    Moment → Option ℕ → Option ℕ → Option ℕ → Option ℕ → Bool → Window
get_business_date_dto now none end_date start end minus = refused bad_start_date
get_business_date_dto now (some sd) none start end minus = refused bad_end_date
get_business_date_dto now (some sd) (some ed) none end minus = refused bad_start_time
get_business_date_dto now (some sd) (some ed) (some start) none minus = refused bad_end_time
get_business_date_dto now (some sd) (some ed) (some start) (some end) minus =
    let dates = dto_dates now sd ed end minus in
    let the_date = if dates.0 == dates.1 then sd else ed in
    window (at dates.0 start) (if ltb start end then at dates.1 end else at (suc the_date) end)

-- `CompareTime`
unfoldable pub compare_time : Option Moment → Option Moment → ℤ
compare_time none t2 = negsuc 0
compare_time (some t1) none = pos 1
compare_time (some t1) (some t2) =
    if instant t1 == instant t2
    then pos 0
    else if ltb (instant t2) (instant t1)
    then pos 1
    else negsuc 0

-- `TimeSubDays` in whole seconds, of two times of one zone.
unfoldable pub time_sub_days : Moment → Moment → ℤ
time_sub_days t1 t2 =
    let seconds = instant t1 - instant t2 in
    if leb (instant t1) (instant t2)
    then negsuc 0
    else if ltb seconds day_seconds
    then (if t1.day == t2.day then pos 0 else pos 1)
    else if seconds % day_seconds == 0
    then pos (seconds / day_seconds)
    else pos (seconds / day_seconds + 1)

abbrev pub distance : ℕ → ℕ → ℕ
distance a b = if leb a b then b - a else a - b

-- `GetSecondDiffer`: none is a text that does not parse. Only the error of the second one is looked
-- at; the first is then the zero time, 366 days after the day of a time that parses.
unfoldable pub get_second_differ : Option ℕ → Option ℕ → ℕ
get_second_differ start none = 0
get_second_differ (some start) (some end) = distance start end
get_second_differ none (some end) = distance (366 * day_seconds) end

-- `IsNearStartTime`: the time that is given chooses the case, and the time of the clock is compared.
unfoldable pub is_near_start_time : ℕ → ℕ → ℕ → ℕ → Bool
is_near_start_time clock t start end =
    let start_time_second = get_second_differ (some clock) (some start) in
    let to_end = get_second_differ (some clock) (some end) in
    if leb 0 t && ltb t start
    then (if ltb end start
        then ltb start_time_second to_end
        else ltb start_time_second
            (get_second_differ (some clock) (some 0) + get_second_differ (some 86399) (some end)))
    else ltb start_time_second to_end
