-- ===== src/Sessions/Attach.antt =====
-- internal/sessions: `CreateWithID` among other steps. The lock is let go between its two critical
-- sections, while the new terminal starts, so that steps of others come between them.
pub mod Keeps
pub mod Again
use scomp_agent.Common.{ℕ, ◌-◌, Option, none, some, List, Bytes}
use scomp_agent.Sessions.{Entry, source_key, reusable}
use scomp_agent.Sessions.Watch.{World, Op, share, start, apply, run}

-- The end of the call, with the terminal it returns; `none` is the error of `pty.New`.
unfoldable pub finish_start : World → Bytes → Bytes → ℕ → Bytes → Option ℕ → World × Option ℕ
finish_start w id cmd now src none = (w, none)
finish_start w id cmd now src (some sess) = (apply w (start id cmd now src sess), some sess)

-- What follows the first critical section, which found an entry or none.
unfoldable pub attach_found :
    World → List Op → Bytes → Bytes → ℕ → Bytes → Option ℕ → Option Entry → World × Option ℕ
unfolding finish_start
attach_found w between id cmd now src started (some e) = (apply w (share id src), some e.session)
attach_found w between id cmd now src started none =
    finish_start (run w between) id cmd now src started

-- `CreateWithID`, with the steps of others between its critical sections.
unfoldable pub attach :
    World → List Op → Bytes → Bytes → List Bytes → ℕ → Option ℕ → World × Option ℕ
unfolding attach_found
attach w between id cmd args now started =
    let src = source_key cmd args in
    attach_found w between id cmd now src started (reusable w.ended w.registry src)
