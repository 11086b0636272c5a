-- ===== src/Agent/Handler/Start.antt =====
-- cmd/scomp/main.go: how `runAgent` announces the sessions of the catalog when a connection starts.
use scomp_agent.Common.{ℕ, ◌≡◌, refl, true, false, Option, none, some, List, [], ◌∷◌, Bytes, set}
use scomp_agent.Agent.Handler.{
  LazySession, State, Outside, send, session_add, start_forwarder, start_found,
}

module _ (out : Outside) where
  announce_found : LazySession → State → Option ℕ → State
  announce_found ls s (some sess) =
      send (session_add ls true 0 0)
        (start_forwarder out (record s { modes = set ls.id ls.mode s.modes }) ls.id)
  announce_found ls s none = record (send (session_add ls false 0 0) s) {
    lazy_map = set ls.id ls s.lazy_map;
  }

  pub announce : LazySession → State → State
  unfolding announce_found
  announce ls s =
      announce_found ls (record s { available = set ls.id ls s.available })
        (out.get s.effects ls.id)

  unfoldable pub announce_all : List LazySession → State → State
  unfolding announce
  announce_all [] s = s
  announce_all (ls ∷ lazy) s = announce_all lazy (announce ls s)

  pub start_forwarder_available :
      (s : State) (id : Bytes) → (start_forwarder out s id).available ≡ s.available
  unfolding start_forwarder start_found
  start_forwarder_available s id =
      elim (out.get s.effects id) as (λ o. (start_found out s id o).available ≡ s.available) [
        | none ↦ refl
        | some sess ↦ refl
      ]

  announce_found_available :
      (ls : LazySession) (s : State) (o : Option ℕ)
      → (announce_found ls s o).available ≡ s.available
  unfolding announce_found
  announce_found_available ls s none = refl
  announce_found_available ls s (some sess) =
      start_forwarder_available (record s { modes = set ls.id ls.mode s.modes }) ls.id

  -- The loop enters every session into `availableLazy`, under its identifier.
  pub announce_available :
      (ls : LazySession) (s : State) → (announce ls s).available ≡ set ls.id ls s.available
  unfolding announce
  announce_available ls s =
      announce_found_available ls (record s { available = set ls.id ls s.available }) _
