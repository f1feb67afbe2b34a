-- ===== src/Domain/Build/Graph.antt =====
-- The transition table of build.ts as a graph.
use qmk_web_app.Common.{◌≡◌, true, arith}
use qmk_web_app.Domain.Build.{
  BuildStatus, queued, preparing, building, uploading, succeeded, failed, cancelled, expired,
  can_transition, is_terminal,
}

-- A status reached through legal transitions.
infix 40 ◌⟶*◌
pub data ◌⟶*◌ (s : BuildStatus) : BuildStatus → Type 0 where
  here : s ⟶* s
  move : {t u : BuildStatus} → s ⟶* t → can_transition t u ≡ true → s ⟶* u

pub ⟶*_trans : {s t u : BuildStatus} → s ⟶* t → t ⟶* u → s ⟶* u
⟶*_trans p here = p
⟶*_trans p (move q e) = move (⟶*_trans p q) e

terminal_step :
    (s t : BuildStatus) → is_terminal s ≡ true → can_transition s t ≡ true → is_terminal t ≡ true
unfolding is_terminal can_transition
terminal_step s t h e = ground arith

pub terminal-⟶* : {s t : BuildStatus} → is_terminal s ≡ true → s ⟶* t → is_terminal t ≡ true
terminal-⟶* h here = h
terminal-⟶* h (move {t = t} {u = u} p e) = terminal_step t u (terminal-⟶* h p) e

-- What may follow a build that has ended: nothing, but that what it made expires.
pub data EndsIn : (status later : BuildStatus) → Type 0 where
  stays_failed : EndsIn failed failed
  stays_cancelled : EndsIn cancelled cancelled
  stays_expired : EndsIn expired expired
  stays_succeeded : EndsIn succeeded succeeded
  runs_out : EndsIn succeeded expired

step-EndsIn : {s t u : BuildStatus} → EndsIn s t → can_transition t u ≡ true → EndsIn s u
unfolding can_transition
step-EndsIn stays_failed e = absurd cc
step-EndsIn stays_cancelled e = absurd cc
step-EndsIn stays_expired e = absurd cc
step-EndsIn {u = expired} stays_succeeded e = runs_out
step-EndsIn {u = succeeded} stays_succeeded e = stays_succeeded
step-EndsIn {u = queued} stays_succeeded e = absurd cc
step-EndsIn {u = preparing} stays_succeeded e = absurd cc
step-EndsIn {u = building} stays_succeeded e = absurd cc
step-EndsIn {u = uploading} stays_succeeded e = absurd cc
step-EndsIn {u = failed} stays_succeeded e = absurd cc
step-EndsIn {u = cancelled} stays_succeeded e = absurd cc
step-EndsIn runs_out e = absurd cc

pub ended-⟶* : {s t : BuildStatus} → EndsIn s s → s ⟶* t → EndsIn s t
ended-⟶* h here = h
ended-⟶* h (move p e) = step-EndsIn (ended-⟶* h p) e
