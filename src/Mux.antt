-- ===== src/Mux.antt =====
-- internal/tmuxsess and internal/screensess: what the agent makes of the listings of tmux and
-- screen, and the arguments it starts them with; cmd/scomp/session_watch.go: the lines of tmux that
-- tell of a change. What the two programs print is an argument.
pub mod Listing
pub mod Names
mod Tests
use scomp_agent.Common.{
  equal, ℕ, ◌+◌, ◌-◌, ◌*◌, ◌%◌, ◌^◌, Bool, true, false, not, ◌&&◌, ◌||◌, Option, none, some, List,
  [], ◌∷◌, ◌++◌, ltb, leb, if◌then◌else◌, Bytes, text,
}
use scomp_agent.Strings.{is_nil, trim_space, has_prefix, split_at, cut_at, fields, contains, trim}

-- `sccompPrefix`
abbrev pub own_prefix : Bytes
own_prefix = text "scomp-"

pub record TmuxSession : Type 0 where
  pub name : Bytes
  pub windows : ℕ

-- The loop over the digits. An `int` is its two's complement of 64 bits.
unfoldable pub digits : ℕ → Bytes → ℕ
digits n [] = n
digits n (c ∷ p) =
    if leb b'0' c && leb c b'9' then digits ((n * 10 + (c - b'0')) % 2 ^ 64) p else digits n p

unfoldable pub windows_of : Option Bytes → ℕ
unfolding digits
windows_of none = 1
windows_of (some p) = let n = digits 0 p in if ltb 0 n && ltb n (2 ^ 63) then n else 1

unfoldable pub parse_lines : List Bytes → List TmuxSession
unfolding windows_of
parse_lines [] = []
parse_lines (line ∷ lines) =
    let rest = parse_lines lines in
    let (name, count) = cut_at b'|' line in
    if is_nil line
    then rest
    else if has_prefix own_prefix name
    then rest
    else record { name = name; windows = windows_of count } ∷ rest

unfoldable pub parse_output : Bytes → List TmuxSession
unfolding parse_lines
parse_output out = parse_lines (split_at b'\n' (trim_space out))

abbrev pub exact_target : Bytes → Bytes
exact_target name = b'=' ∷ name

abbrev pub linked_session_name : Bytes → Bytes
linked_session_name name = own_prefix ++ name

abbrev pub attach_args : Bytes → Bytes × List Bytes
attach_args name = (text "tmux", text "attach-session" ∷ text "-t" ∷ exact_target name ∷ [])

abbrev pub linked_session_args : Bytes → Bytes × List Bytes
linked_session_args name = (
  text "tmux",
  text "new-session"
      ∷ text "-A"
      ∷ text "-t"
      ∷ exact_target name
      ∷ text "-s"
      ∷ linked_session_name name
      ∷ [],
)

-- The arguments of `KillLinkedSession`.
abbrev pub kill_args : Bytes → Bytes × List Bytes
kill_args name =
    (text "tmux", text "kill-session" ∷ text "-t" ∷ exact_target (linked_session_name name) ∷ [])

pub record ScreenSession : Type 0 where
  pub full_name : Bytes
  pub name : Bytes
  pub status : Bytes

-- What follows the first dot, or all of it.
unfoldable pub display_name : Bytes → Bytes
display_name full = elim (cut_at b'.' full).1 [ none ↦ full | some name ↦ name ]

unfoldable pub is_seen : List Bytes → Bytes → Bool
is_seen [] name = false
is_seen (n ∷ seen) name = if equal n name then true else is_seen seen name

-- One line's session, if it tells of one.
screen_fields : List Bytes → Option ScreenSession
unfolding display_name
screen_fields (full ∷ field ∷ more) =
    let status = trim (text "()") field in
    if equal status (text "Attached") || equal status (text "Detached")
    then some (record { full_name = full; name = display_name full; status = status })
    else none
screen_fields _ = none

unfoldable pub screen_line : Bytes → Option ScreenSession
unfolding screen_fields
screen_line line =
    let trimmed = trim_space line in
    if is_nil trimmed || not (contains b'.' trimmed) then none else screen_fields (fields trimmed)

-- `seen` are the display names so far.
unfoldable pub keep_new :
    List Bytes → Option ScreenSession → (List Bytes → List ScreenSession) → List ScreenSession
unfolding is_seen
keep_new seen none rest = rest seen
keep_new seen (some s) rest = if is_seen seen s.name then rest seen else s ∷ rest (s.name ∷ seen)

unfoldable pub parse_screen_lines : List Bytes → List Bytes → List ScreenSession
unfolding keep_new
parse_screen_lines [] seen = []
parse_screen_lines (line ∷ lines) seen =
    keep_new seen (screen_line line) (λ seen. parse_screen_lines lines seen)

unfoldable pub parse_screen_output : Bytes → List ScreenSession
parse_screen_output out = parse_screen_lines (split_at b'\n' out) []

-- `AttachArgs` of the package for screen.
abbrev pub screen_attach_args : Bytes → Bytes × List Bytes
screen_attach_args full = (text "screen", text "-x" ∷ full ∷ [])

-- `isTmuxSessionChange`
unfoldable pub is_session_change : Bytes → Bool
is_session_change line =
    let line = trim_space line in
    equal line (text "%sessions-changed")
    || has_prefix (text "%session-changed ") line
    || has_prefix (text "%session-renamed ") line
