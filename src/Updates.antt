-- ===== src/Updates.antt =====
-- The status updates of a history, and what is assumed of the API server's answers to them.
use kube_debug_sess.Prelude.{◌≡◌, All, All-implies, All-mem}
use mathlib.Core.List.{Memᴰ}
use kube_debug_sess.Api.{DebugSession}
use kube_debug_sess.Kube.{ok}
use kube_debug_sess.Cluster.{
  Call, got_session, listed_sessions, got_namespace, got_pod, updated_status,
  updated_ephemeral_containers, got_service, listed_nodes, read_random, read_clock, opened_log,
  put_object, posted, History, Env,
}

-- A property of the session that a call stores, if it stores one.
abbrev pub OnUpdate {ℓ} : (DebugSession → Type ℓ) → Call → Type ℓ
OnUpdate P (updated_status s) = P s
OnUpdate P (got_session key) = Unit
OnUpdate P (listed_sessions index) = Unit
OnUpdate P (got_namespace name) = Unit
OnUpdate P (got_pod key) = Unit
OnUpdate P (updated_ephemeral_containers ns name pod) = Unit
OnUpdate P (got_service ns name) = Unit
OnUpdate P listed_nodes = Unit
OnUpdate P (read_random n) = Unit
OnUpdate P read_clock = Unit
OnUpdate P (opened_log ns name container) = Unit
OnUpdate P (put_object bucket key bytes) = Unit
OnUpdate P (posted url payload) = Unit

-- Every status update of the history stores a session with the property.
abbrev pub Updates {ℓ} : (DebugSession → Type ℓ) → History → Type ℓ
Updates P h = All (OnUpdate P) h

-- A status update that succeeds leaves the status as it was sent: the server stores it and answers
-- with what it stored.
pub record KeepsStatus (env : Env) : Type 0 where
  pub kept :
      (h : History) (s s' : DebugSession) → env.status_answer h s ≡ ok s' → s'.status ≡ s.status

-- A property of what is stored may be weakened.
OnUpdate-implies :
    (P Q : DebugSession → Type 0) (f : (s : DebugSession) → P s → Q s) (c : Call)
    → OnUpdate P c
    → OnUpdate Q c
OnUpdate-implies P Q f (updated_status s) p = f s p
OnUpdate-implies P Q f _ p = tt

pub Updates-implies :
    (P Q : DebugSession → Type 0)
    → ((s : DebugSession) → P s → Q s)
    → (h : History) → Updates P h
    → Updates Q h
Updates-implies P Q f h u = All-implies (OnUpdate P) (OnUpdate Q) (OnUpdate-implies P Q f) h u

-- Each stored session has what every update has.
pub Updates-mem :
    (P : DebugSession → Type 0) (t : DebugSession) (h : History)
    → Updates P h
    → Memᴰ (updated_status t) h
    → P t
Updates-mem P t h u m = All-mem (OnUpdate P) h (updated_status t) u m
