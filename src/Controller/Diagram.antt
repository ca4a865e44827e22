-- ===== src/Controller/Diagram.antt =====
-- The phases of a session as a diagram, and the way from each phase to the end.
use kube_debug_sess.Api.{SessionPhase, DebugSession}
use kube_debug_sess.Api.SessionPhase.{
  unset, pending, injecting, active, retrying, terminating, completed, failed,
}

infix 40 ◌⟶◌
pub data ◌⟶◌ : SessionPhase → SessionPhase → Type 0 where
  create : unset ⟶ pending
  validate : pending ⟶ injecting
  reject : pending ⟶ failed
  hold : injecting ⟶ injecting
  inject : injecting ⟶ active
  refuse : injecting ⟶ failed
  announce : active ⟶ active
  retry : active ⟶ retrying
  succeed : active ⟶ terminating
  lose : active ⟶ failed
  again : retrying ⟶ retrying
  resolve : retrying ⟶ active
  give_up : retrying ⟶ failed
  archive : terminating ⟶ terminating
  complete : terminating ⟶ completed
  abort : terminating ⟶ failed
  close : completed ⟶ completed
  spoil : completed ⟶ failed

-- The session stored has a phase next to the given one.
abbrev pub Follows : SessionPhase → DebugSession → Type 0
Follows p t = p ⟶ t.status.phase

pub ruleset edges = (
  create, validate, reject, hold, inject, refuse, announce, retry, succeed, lose, again, resolve,
  give_up, archive, complete, abort, close, spoil,
)

-- The reflexive and transitive closure.
infix 40 ◌⟶*◌
pub data ◌⟶*◌ : SessionPhase → SessionPhase → Type 0 where
  here : {p : SessionPhase} → p ⟶* p
  then : {p q r : SessionPhase} → p ⟶ q → q ⟶* r → p ⟶* r
