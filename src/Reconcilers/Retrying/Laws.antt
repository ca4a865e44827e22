-- ===== src/Reconcilers/Retrying/Laws.antt =====
-- `handleRetry` on its branches, and a bound on the retries in a row.
use kube_debug_sess.Prelude.{
  ℕ, zero, suc, ◌≡◌, refl, ◌+◌, ◌^◌, ◌≤◌, ◌<◌, ◌⊎◌, inl, inr, ◌∙◌, ap, Bool-cases, All-mem, String,
  true, false, [], ◌∷◌, Option, none, some, arith,
}
use mathlib.Core.List.{Memᴰ}
use kube_debug_sess.Prelude.Int.{ℤ, pos, negsuc, wrap, leb_ℤ}
use kube_debug_sess.Api.{DebugSession}
use kube_debug_sess.Api.SessionPhase.{retrying, failed}
use kube_debug_sess.Kube.{ApiError, Fallible-cases, ContainerStatus, ok, err}
use kube_debug_sess.Cluster.{Env, History, updated_status}
use kube_debug_sess.SessionPhases.Outcome.{seconds, plain, requeue, errored}
use kube_debug_sess.SessionPhases.Update.{update_session_status, with_namespace, target_pod}
use kube_debug_sess.Updates.{OnUpdate, Updates}
use kube_debug_sess.Reconcilers.Retrying.{
  is_exhausted, with_retry, retry_later, handle_retry, observe, reconcile,
}
use kube_debug_sess.Reconcilers.Retrying.Backoff.{next_count, wait_duration}
use kube_debug_sess.Reconcilers.Retrying.Wait.{
  backoff_seconds, wait_duration-backoff, wait_duration-negative,
}

pub next_count-pos : (n : ℕ) → n < 2 ^ 62 → next_count (pos n) ≡ pos (suc n)
unfolding next_count
next_count-pos n h = ground arith

wait-next :
    (n : ℕ) → n < 31 → wait_duration (next_count (pos n)) ≡ some (seconds (backoff_seconds n))
wait-next n h = ap wait_duration (next_count-pos n (omega arith)) ∙ wait_duration-backoff n h

exhausted : (n m : ℕ) → n < 2 ^ 31 → m ≤ n → leb_ℤ (pos m) (wrap 32 (pos n)) ≡ true
exhausted n m h k = ground arith

pub not_exhausted : (n m : ℕ) → n < m → m < 2 ^ 31 → leb_ℤ (pos m) (wrap 32 (pos n)) ≡ false
not_exhausted n m h k = ground arith

module _ (env : Env) (s : DebugSession) (reason : String) (h : History) (n m : ℕ) where
  -- With retries left, up to the 31st and with a maximum of 31 bits: one update, with the count one
  -- up and the phase kept, and then the next run after the backoff, or the update's error.
  pub handle_retry-again :
      s.status.retry_count ≡ pos n
      → s.spec.max_retry_count ≡ pos m
      → n < m
      → n < 31
      → m < 2 ^ 31
      → let (outcome, h') = handle_retry env s reason h in
        let t = with_retry s reason in
        (h' ≡ updated_status t ∷ h)
        × (t.status.retry_count ≡ pos (suc n))
        × (t.status.phase ≡ s.status.phase)
        × ((outcome ≡ requeue (seconds (backoff_seconds n)))
            ⊎ ((e : ApiError) × (env.status_answer h t ≡ err e)
                × (outcome ≡ errored (plain e.text))))
  unfolding handle_retry
  handle_retry-again c x lt small bound =
      let ex : is_exhausted s ≡ false = ground (arith, not_exhausted n m) in
      let w : wait_duration (next_count s.status.retry_count) ≡ some (seconds (backoff_seconds n)) =
        ap (λ k. wait_duration (next_count k)) c ∙ wait-next n small in
      let up : next_count s.status.retry_count ≡ pos (suc n) =
        ap next_count c ∙ next_count-pos n (omega arith) in
      (
        ground arith,
        up,
        refl,
        elim (Fallible-cases (env.status_answer h (with_retry s reason))) [
          | inl (t, e) ↦ inl (ground arith)
          | inr (e, p) ↦ inr (e, p, ground arith)
        ],
      )

  -- With a count of 31 bits that has reached the maximum: the session is stored as failed, and no
  -- more.
  pub handle_retry-exhausted :
      s.status.retry_count ≡ pos n
      → s.spec.max_retry_count ≡ pos m
      → m ≤ n
      → n < 2 ^ 31
      → handle_retry env s reason h
        ≡ update_session_status env s failed "Failed after max retries." h
  unfolding handle_retry
  handle_retry-exhausted c x le bound = ground (arith, exhausted n m)

-- What a stored session that is still retrying says: a retry was left, and it is counted.
abbrev Counts : ℕ → ℕ → DebugSession → Type 0
Counts n m t = t.status.phase ≡ retrying → (n < m) × (t.status.retry_count ≡ pos (suc n))

some_left : (n m : ℕ) → n < 2 ^ 31 → leb_ℤ (pos m) (wrap 32 (pos n)) ≡ false → n < m
some_left n m h k = ground arith

module _ (env : Env) (s : DebugSession) (h : History) (n m : ℕ) where
  retry_later-Counts :
      (reason : String) (wait : Option ℤ)
      → n < m
      → next_count s.status.retry_count ≡ pos (suc n)
      → Updates (Counts n m) h
      → Updates (Counts n m) (retry_later env s reason wait h).1
  unfolding retry_later
  retry_later-Counts reason none lt w u = u
  retry_later-Counts reason (some wait) lt w u = ((λ e. (lt, w)), u)

  handle_retry-Counts :
      (reason : String)
      → s.status.retry_count ≡ pos n
      → s.spec.max_retry_count ≡ pos m
      → n < 2 ^ 31
      → Updates (Counts n m) h
      → Updates (Counts n m) (handle_retry env s reason h).1
  unfolding handle_retry
  handle_retry-Counts reason c x lt u = elim (Bool-cases (is_exhausted s)) [
    | inl ex ↦ rw ex ((λ e. absurd (cc e)), u)
    | inr ex ↦
        let w = ap next_count c ∙ next_count-pos n (omega arith) in
        let left : n < m = ground (arith, some_left n m) in
        rw ex (retry_later-Counts reason (wait_duration (next_count s.status.retry_count)) left w u)
  ]

module _ (env : Env) (s : DebugSession) (h : History) (n m : ℕ) where
  observe-Counts :
      (o : Option ContainerStatus)
      → s.status.retry_count ≡ pos n
      → s.spec.max_retry_count ≡ pos m
      → n < 2 ^ 31
      → Updates (Counts n m) h
      → Updates (Counts n m) (observe env o s h).1
  unfolding observe
  observe-Counts o c x lt u = grind (arith, handle_retry-Counts env s h n m)

-- A session that a run stores as retrying had a retry left, and has one more counted.
reconcile-Counts :
    (env : Env) (s : DebugSession) (n m : ℕ)
    → s.status.retry_count ≡ pos n
    → s.spec.max_retry_count ≡ pos m
    → n < 2 ^ 31
    → Updates (Counts n m) (reconcile env s []).1
unfolding reconcile
reconcile-Counts env s n m c x lt =
    elim (Fallible-cases (env.pod [] (target_pod (with_namespace s)))) [
      | inl (pod, e) ↦ rw e (observe-Counts env (with_namespace s) _ n m _ c x lt (tt, tt))
      | inr (x, e) ↦ rw e ((λ q. absurd (cc q)), (tt, tt))
    ]

-- `k` runs in a row, each of which stores the session as retrying.
pub data Retries : ℕ → DebugSession → DebugSession → Type 0 where
  done : {s : DebugSession} → Retries zero s s
  once_more :
      (env : Env) {k : ℕ} {s t u : DebugSession}
      → Memᴰ (updated_status t) (reconcile env s []).1
      → t.status.phase ≡ retrying
      → Retries k (record s { status = t.status }) u
      → Retries (suc k) s u

-- The retries in a row never exceed the maximum of the spec: from n counted and a maximum m of 31
-- bits, n at most m, runs that each store the session as retrying number at most m - n.
pub Retries-bound :
    (n m k : ℕ) (s t : DebugSession)
    → s.status.retry_count ≡ pos n
    → s.spec.max_retry_count ≡ pos m
    → n ≤ m
    → m < 2 ^ 31
    → Retries k s t
    → n + k ≤ m
Retries-bound n m zero s t c x le bound done = omega arith
Retries-bound n m (suc k) s u c x le bound (once_more env {t = t} stored p r) =
    let (lt, c') =
      All-mem (OnUpdate (Counts n m)) _ _ (reconcile-Counts env s n m c x (omega arith)) stored p in
    omega (arith, Retries-bound (suc n) m k (record s { status = t.status }) u c' x lt bound r)

-- At the 32nd retry, where the maximum allows it and the update succeeds, the wait that is asked
-- for is negative, whatever the reason.
pub handle_retry-overflow :
    (env : Env) (s t : DebugSession) (reason : String) (h : History) (m : ℕ)
    → s.status.retry_count ≡ pos 31
    → s.spec.max_retry_count ≡ pos m
    → 31 < m
    → m < 2 ^ 31
    → env.status_answer h (with_retry s reason) ≡ ok t
    → (handle_retry env s reason h).0 ≡ requeue (negsuc 7_709_325_833_709_551_615)
unfolding handle_retry
handle_retry-overflow env s t reason h m c x lt bound answer =
    let ex : is_exhausted s ≡ false = ground (arith, not_exhausted 31 m) in
    let w : wait_duration (next_count s.status.retry_count) ≡ some _ =
      ap (λ k. wait_duration (next_count k)) c
      ∙ ap wait_duration (next_count-pos 31 (omega arith))
      ∙ wait_duration-negative in
    ground arith
