-- ===== src/Agent/Handler/Grows.antt =====
-- Handling a message only appends effects.
use scomp_agent.Common.{
  ◌≡◌, refl, sym, ap, ◌∙◌, Bool, true, false, List, [], ◌∷◌, ◌++◌, append-nil, append_assoc,
  if◌then◌else◌, Bytes,
}
use scomp_agent.Protocol.{AgentMsg}
use scomp_agent.Agent.Snapshot.{send_snapshot}
use scomp_agent.Agent.Snapshot.Batch.{send_all, batch, send_snapshot-batch}
use scomp_agent.Agent.Handler.{
  Effect, wrote, resized, activating, forwarding, asked_snapshot, pairing, sent, State, Outside,
  send, always,
}

-- An effect that reaches no terminal's input or size.
abbrev pub IsPlain : Effect → Type 0
IsPlain (wrote t input) = ⊥
IsPlain (resized t cols rows) = ⊥
IsPlain (activating id cols rows) = Unit
IsPlain (forwarding id) = Unit
IsPlain (asked_snapshot fw sid cid) = Unit
IsPlain (pairing id) = Unit
IsPlain (sent m) = Unit

abbrev pub AllOf : (Effect → Type 0) → List Effect → Type 0
AllOf P [] = Unit
AllOf P (e ∷ es) = P e × AllOf P es

pub append-AllOf :
    (P : Effect → Type 0) (xs ys : List Effect) → AllOf P xs → AllOf P ys → AllOf P (xs ++ ys)
append-AllOf P [] ys h k = k
append-AllOf P (x ∷ xs) ys h k = (h.0, append-AllOf P xs ys h.1 k)

pub weaken-AllOf :
    (P Q : Effect → Type 0) (xs : List Effect)
    → ((e : Effect) → P e → Q e)
    → AllOf P xs
    → AllOf Q xs
weaken-AllOf P Q [] f h = tt
weaken-AllOf P Q (x ∷ xs) f h = (f x h.0, weaken-AllOf P Q xs f h.1)

-- From `es` on, effects with `P` were appended.
abbrev pub Grows : (Effect → Type 0) → List Effect → List Effect → Type 0
Grows P es es' = (new : List Effect) × (es' ≡ es ++ new) × AllOf P new

module _ (P : Effect → Type 0) where
  pub stay-Grows : (es : List Effect) → Grows P es es
  stay-Grows es = ([], sym (append-nil es), tt)

  pub trans-Grows : (a b c : List Effect) → Grows P a b → Grows P b c → Grows P a c
  trans-Grows a b c (x, e, h) (y, e', k) =
      (x ++ y, e' ∙ ap (λ z. z ++ y) e ∙ append_assoc a x y, append-AllOf P x y h k)

  pub emit-Grows : (es : List Effect) (e : Effect) → P e → Grows P es (es ++ e ∷ [])
  emit-Grows es e h = (e ∷ [], refl, (h, tt))

  -- One step or another, by a test.
  pub Grows-if :
      (es : List Effect) (b : Bool) (x y : State)
      → (b ≡ true → Grows P es x.effects)
      → (b ≡ false → Grows P es y.effects)
      → Grows P es (if b then x else y).effects
  Grows-if es true x y h k = h refl
  Grows-if es false x y h k = k refl

module _ (out : Outside) where
  send_all-Grows :
      (ms : List AgentMsg) (s : State)
      → Grows IsPlain s.effects (send_all (always out) ms s).1.effects
  unfolding send_all
  send_all-Grows [] s = stay-Grows IsPlain s.effects
  send_all-Grows (m ∷ ms) s =
      trans-Grows IsPlain s.effects (send m s).effects _ (emit-Grows IsPlain s.effects (sent m) tt)
        (send_all-Grows ms (send m s))

  pub send_snapshot-Grows :
      (sid cid history : Bytes) (s : State)
      → Grows IsPlain s.effects (send_snapshot (always out) sid cid history s).effects
  send_snapshot-Grows sid cid history s =
      rw (send_snapshot-batch (always out) sid cid history s)
        (send_all-Grows (batch sid cid history) s)
