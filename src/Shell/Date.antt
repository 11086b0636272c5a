-- ===== src/Shell/Date.antt =====
-- fakeshell/date.go: `date` and the uptime texts. A time is what the methods of `time.Time` tell of
-- it; the year and the seconds since 1970 are no less than 0.
pub mod Composite
mod Tests
use scomp_agent.Common.{
  equal, ℕ, zero, suc, ◌-◌, ◌/◌, ◌%◌, Bool, true, false, ◌&&◌, ◌||◌, List, [], ◌∷◌, ◌++◌, ltb, leb,
  ◌==◌, if◌then◌else◌, Bytes, length, take, replicate, text,
}
use scomp_agent.Strings.{has_prefix}
use scomp_agent.Term.Render.{decimal}

-- `weekday` counts from Sunday, `month` from 1. The zone is as far from UTC as `zone_minutes` tell,
-- to the west of it if `west` holds.
pub record Civil : Type 0 where
  pub year : ℕ
  pub month : ℕ
  pub day : ℕ
  pub hour : ℕ
  pub minute : ℕ
  pub second : ℕ
  pub nanosecond : ℕ
  pub weekday : ℕ
  pub year_day : ℕ
  pub unix : ℕ
  pub zone_minutes : ℕ
  pub west : Bool
  pub zone : Bytes

-- `%0wd`, and `%wd` with a space for the rune.
unfoldable pub padded : ℕ → ℕ → ℕ → Bytes
padded c w n = replicate (w - length (decimal n)) c ++ decimal n

abbrev pub zeros : ℕ → ℕ → Bytes
zeros w n = padded b'0' w n

abbrev pub spaces : ℕ → ℕ → Bytes
spaces w n = padded b' ' w n

unfoldable pub name_at : List Bytes → ℕ → Bytes
name_at [] n = []
name_at (name ∷ names) zero = name
name_at (name ∷ names) (suc n) = name_at names n

abbrev pub weekday_names : List Bytes
weekday_names =
    text "Sunday"
    ∷ text "Monday"
    ∷ text "Tuesday"
    ∷ text "Wednesday"
    ∷ text "Thursday"
    ∷ text "Friday"
    ∷ text "Saturday"
    ∷ []

abbrev pub month_names : List Bytes
month_names =
    text "January"
    ∷ text "February"
    ∷ text "March"
    ∷ text "April"
    ∷ text "May"
    ∷ text "June"
    ∷ text "July"
    ∷ text "August"
    ∷ text "September"
    ∷ text "October"
    ∷ text "November"
    ∷ text "December"
    ∷ []

unfoldable pub hour12 : Civil → ℕ
hour12 t = let h = t.hour % 12 in if h == 0 then 12 else h

-- The parts of the layouts that `Format` is given.
abbrev pub weekday_text : Civil → Bytes
weekday_text t = name_at weekday_names t.weekday

abbrev pub month_text : Civil → Bytes
month_text t = name_at month_names (t.month - 1)

abbrev pub clock_text : Civil → Bytes
clock_text t = zeros 2 t.hour ++ text ":" ++ zeros 2 t.minute ++ text ":" ++ zeros 2 t.second

abbrev pub us_date_text : Civil → Bytes
us_date_text t = zeros 2 t.month ++ text "/" ++ zeros 2 t.day ++ text "/" ++ zeros 2 (t.year % 100)

abbrev pub half_text : Civil → Bytes
half_text t = if leb 12 t.hour then text "PM" else text "AM"

abbrev pub sign_text : Civil → Bytes
sign_text t = if t.west then text "-" else text "+"

-- `t.Format("-07:00")`
abbrev pub colon_zone : Civil → Bytes
colon_zone t =
    sign_text t ++ zeros 2 (t.zone_minutes / 60) ++ text ":" ++ zeros 2 (t.zone_minutes % 60)

-- The `switch` over the directive.
unfoldable pub directive : Civil → ℕ → Bytes
unfolding hour12
directive t d =
    if d == b'%'
    then text "%"
    else if d == b'a'
    then take 3 (weekday_text t)
    else if d == b'A'
    then weekday_text t
    else if d == b'b' || d == b'h'
    then take 3 (month_text t)
    else if d == b'B'
    then month_text t
    else if d == b'c'
    then take 3 (weekday_text t)
      ++ text " "
      ++ take 3 (month_text t)
      ++ text " "
      ++ spaces 2 t.day
      ++ text " "
      ++ clock_text t
      ++ text " "
      ++ zeros 4 t.year
    else if d == b'C'
    then zeros 2 (t.year / 100)
    else if d == b'd'
    then zeros 2 t.day
    else if d == b'D'
    then us_date_text t
    else if d == b'e'
    then spaces 2 t.day
    else if d == b'F'
    then zeros 4 t.year ++ text "-" ++ zeros 2 t.month ++ text "-" ++ zeros 2 t.day
    else if d == b'H'
    then zeros 2 t.hour
    else if d == b'I'
    then zeros 2 (hour12 t)
    else if d == b'j'
    then zeros 3 t.year_day
    else if d == b'k'
    then spaces 2 t.hour
    else if d == b'l'
    then spaces 2 (hour12 t)
    else if d == b'm'
    then zeros 2 t.month
    else if d == b'M'
    then zeros 2 t.minute
    else if d == b'n'
    then b'\n' ∷ []
    else if d == b'N'
    then zeros 9 t.nanosecond
    else if d == b'p'
    then half_text t
    else if d == b'P'
    then (if leb 12 t.hour then text "pm" else text "am")
    else if d == b'r'
    then zeros 2 (hour12 t)
      ++ text ":"
      ++ zeros 2 t.minute
      ++ text ":"
      ++ zeros 2 t.second
      ++ text " "
      ++ half_text t
    else if d == b'R'
    then zeros 2 t.hour ++ text ":" ++ zeros 2 t.minute
    else if d == b's'
    then decimal t.unix
    else if d == b'S'
    then zeros 2 t.second
    else if d == b't'
    then b'\t' ∷ []
    else if d == b'T' || d == b'X'
    then clock_text t
    else if d == b'u'
    then decimal (if t.weekday == 0 then 7 else t.weekday)
    else if d == b'w'
    then decimal t.weekday
    else if d == b'x'
    then us_date_text t
    else if d == b'y'
    then zeros 2 (t.year % 100)
    else if d == b'Y'
    then decimal t.year
    else if d == b'z'
    then sign_text t ++ zeros 2 (t.zone_minutes / 60) ++ zeros 2 (t.zone_minutes % 60)
    else if d == b'Z'
    then t.zone
    else b'%' ∷ d ∷ []

-- `elim` keeps the calls that are not needed from being computed.
unfoldable pub strftime : Civil → Bytes → Bytes
unfolding directive
strftime t [] = []
strftime t (c ∷ []) = c ∷ []
strftime t (c ∷ d ∷ []) = elim (c == b'%') [
  | true ↦ directive t d
  | false ↦ c ∷ strftime t (d ∷ [])
]
strftime t (c ∷ d ∷ e ∷ s) = elim (c == b'%') [
  | true ↦ elim (d == b':' && e == b'z') [
    | true ↦ colon_zone t ++ strftime t s
    | false ↦ directive t d ++ strftime t (e ∷ s)
  ]
  | false ↦ c ∷ strftime t (d ∷ e ∷ s)
]

abbrev pub default_date_format : Bytes
default_date_format = text "%a %b %e %H:%M:%S %Z %Y"

pub data DateError : Type 0 where
  cannot_set no_other_dates : DateError
  invalid_date : Bytes → DateError

-- What one argument of `date` leads to.
pub data DateOption : Type 0 where
  in_utc : DateOption
  with_format : Bytes → DateOption
  wrong : DateError → DateOption

is_any : List Bytes → Bytes → Bool
is_any [] a = false
is_any (b ∷ bs) a = if equal a b then true else is_any bs a

date_option_rest : Bytes → DateOption
date_option_rest a =
    if equal a (text "-d") || has_prefix (text "--date") a
    then wrong no_other_dates
    else wrong (invalid_date a)

plus_option : Bytes → DateOption
unfolding date_option_rest
plus_option [] = date_option_rest []
plus_option (c ∷ format) = if c == b'+' then with_format format else date_option_rest (c ∷ format)

unfoldable pub date_option : Bytes → DateOption
unfolding is_any plus_option
date_option a =
    if is_any (text "-u" ∷ text "--utc" ∷ text "--universal" ∷ []) a
    then in_utc
    else if is_any (text "-R" ∷ text "--rfc-email" ∷ []) a
    then with_format (text "%a, %d %b %Y %H:%M:%S %z")
    else if is_any (text "-I" ∷ text "--iso-8601" ∷ text "-Idate" ∷ text "--iso-8601=date" ∷ []) a
    then with_format (text "%F")
    else if is_any (text "-Ihours" ∷ text "--iso-8601=hours" ∷ []) a
    then with_format (text "%FT%H%:z")
    else if is_any (text "-Iminutes" ∷ text "--iso-8601=minutes" ∷ []) a
    then with_format (text "%FT%H:%M%:z")
    else if is_any (text "-Iseconds" ∷ text "--iso-8601=seconds" ∷ []) a
    then with_format (text "%FT%T%:z")
    else if equal a (text "-s") || has_prefix (text "--set") a
    then wrong cannot_set
    else plus_option a

pub data DateResult : Type 0 where
  printed : Bytes → DateResult
  failed : DateError → DateResult

-- `dateCommand`; `utc` is what `now.UTC()` gives, and `format` the one so far.
unfoldable pub date_from : Civil → Civil → Bytes → List Bytes → DateResult
unfolding date_option
date_from utc now format [] = printed (strftime now format ++ b'\n' ∷ [])
date_from utc now format (a ∷ args) = elim (date_option a) [
  | in_utc ↦ date_from utc utc format args
  | with_format format' ↦ date_from utc now format' args
  | wrong e ↦ failed e
]

unfoldable pub date_command : Civil → Civil → List Bytes → DateResult
date_command utc now args = date_from utc now default_date_format args

-- The parts of a duration that is given in whole minutes.
abbrev pub days_of : ℕ → ℕ
days_of minutes = minutes / 60 / 24

abbrev pub hours_of : ℕ → ℕ
hours_of minutes = minutes / 60 % 24

unfoldable pub format_uptime : ℕ → Bytes
format_uptime minutes =
    (if days_of minutes == 0
      then []
      else if days_of minutes == 1
      then text "1 day, "
      else decimal (days_of minutes) ++ text " days, ")
    ++ (if hours_of minutes == 0 && days_of minutes == 0
        then decimal (minutes % 60) ++ text " min"
        else spaces 2 (hours_of minutes) ++ text ":" ++ zeros 2 (minutes % 60))

unfoldable pub unit : ℕ → Bytes → List Bytes
unit n name =
    if n == 1
    then (text "1 " ++ name) ∷ []
    else if ltb 1 n
    then (decimal n ++ text " " ++ name ++ text "s") ∷ []
    else []

-- `strings.Join` with a comma and a space.
unfoldable pub join_commas : List Bytes → Bytes
join_commas [] = []
join_commas (p ∷ []) = p
join_commas (p ∷ q ∷ ps) = p ++ text ", " ++ join_commas (q ∷ ps)

unfoldable pub format_uptime_pretty : ℕ → Bytes
unfolding unit join_commas
format_uptime_pretty minutes =
    let parts =
      unit (days_of minutes) (text "day")
      ++ unit (hours_of minutes) (text "hour")
      ++ unit (minutes % 60) (text "minute") in
    if length parts == 0 then text "up 0 minutes" else text "up " ++ join_commas parts
