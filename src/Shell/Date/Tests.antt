-- ===== src/Shell/Date/Tests.antt =====
-- Dates at concrete inputs.
use scomp_agent.Common.{equal, ◌+◌, ◌*◌, ◌≡◌, refl, true, [], ◌∷◌, ◌++◌, text}
use scomp_agent.Shell.Date.{
  Civil, padded, name_at, hour12, directive, strftime, cannot_set, is_any, plus_option, date_option,
  printed, failed, date_from, date_command, format_uptime, unit, join_commas, format_uptime_pretty,
}
use scomp_agent.Shell.Date.Composite.{complete, clock12, strftime-Means}
use scomp_agent.Term.Render.{decimal, decimal_from}
use scomp_agent.Strings.{has_prefix}

-- Wednesday, 5 March 2025, 0:07:09, one hour and a half west of Greenwich.
abbrev night : Civil
night = record {
  year = 2025;
  month = 3;
  day = 5;
  hour = 0;
  minute = 7;
  second = 9;
  nanosecond = 1000;
  weekday = 3;
  year_day = 64;
  unix = 1741138629;
  zone_minutes = 90;
  west = true;
  zone = text "XYZ";
}

date_command-default : date_command night night [] ≡ printed (text "Wed Mar  5 00:07:09 XYZ 2025\n")
unfolding date_command date_from strftime directive name_at padded decimal decimal_from
date_command-default = refl

date_command-options :
    date_command night night (text "-Ihours" ∷ text "+%l%P%:z %q%" ∷ [])
    ≡ printed (text "12am-01:30 %q%\n")
unfolding date_command date_from date_option is_any equal strftime directive padded decimal
    decimal_from hour12 has_prefix plus_option
date_command-options = refl

date_command-set : date_command night night (text "--set=x" ∷ []) ≡ failed cannot_set
unfolding date_command date_from date_option is_any equal has_prefix
date_command-set = refl

format_uptime-day : format_uptime (24 * 60 + 5) ≡ text "1 day,  0:05"
unfolding format_uptime padded decimal decimal_from
format_uptime-day = refl

format_uptime_pretty-days :
    format_uptime_pretty (3 * 24 * 60 + 61) ≡ text "up 3 days, 1 hour, 1 minute"
unfolding format_uptime_pretty unit join_commas decimal decimal_from
format_uptime_pretty-days = refl

strftime-Means_example :
    strftime night (text "at %:z " ++ (text "%r" ++ text "%"))
    ≡ strftime night (text "at %:z " ++ (text "%I:%M:%S %p" ++ text "%"))
unfolding complete
strftime-Means_example = strftime-Means night (text "at %:z ") (text "%") refl clock12
