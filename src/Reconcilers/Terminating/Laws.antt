-- ===== src/Reconcilers/Terminating/Laws.antt =====
-- A session is completed only when its log has been stored.
use kube_debug_sess.Prelude.{
  ℕ, ◌≡◌, refl, sym, ◌∙◌, ◌≢◌, String, true, Option, none, some, List, [], ◌∷◌, inl, inr, arith,
  Bool-cases,
}
use mathlib.Core.List.{Memᴰ}
use kube_debug_sess.Api.{DebugSession}
use kube_debug_sess.Api.SessionPhase.{completed}
use kube_debug_sess.Kube.{Pod, LogStream, Fallible, ok, err, Fallible-cases}
use kube_debug_sess.Cluster.{
  Env, History, got_pod, opened_log, read_clock, put_object, updated_status,
}
use kube_debug_sess.SessionPhases.Outcome.{GoError, finish}
use kube_debug_sess.SessionPhases.Update.{
  with_namespace, target_pod, debugger_name, with_phase, update_session_status,
}
use kube_debug_sess.Updates.{Updates, Updates-implies, Updates-mem}
use kube_debug_sess.Reconcilers.Containers.{is_ephemeral_container_present}
use kube_debug_sess.Reconcilers.Logs.{read_log, clean_log_data}
use kube_debug_sess.Reconcilers.Terminating.{
  cleaned_log, log_key, with_termination_time, fetch_ephemeral_logs, store_log, collect_log,
  cleanup_ephemeral_container, conclude, reconcile,
}

-- The history once the log is opened.
abbrev opening : DebugSession → Pod → History → History
opening s pod h = opened_log pod.namespace pod.name (debugger_name s) ∷ h

-- The bucket's key for the log.
abbrev archive_key : Env → DebugSession → Pod → History → String
archive_key env s pod h = log_key pod (debugger_name s) (env.clock (opening s pod h))

-- From h to h', the log of the debugger was stored: the pod has the container, its log was opened
-- and read to the end, and the bucket accepted the clean text.
pub record IsArchived (env : Env) (s : DebugSession) (pod : Pod) (h h' : History) : Type 0 where
  pub stream : LogStream
  pub raw : List ℕ
  pub present : is_ephemeral_container_present pod.ephemeral_containers (debugger_name s) ≡ true
  pub opened : env.log h pod.namespace pod.name (debugger_name s) ≡ ok stream
  pub log_read : read_log stream [] ≡ ok raw
  pub accepted :
      env.object_answer
        (read_clock ∷ opening s pod h)
        (env.getenv "S3_BUCKET_NAME")
        (archive_key env s pod h)
        (clean_log_data raw)
      ≡ ok tt
  pub history :
      h'
      ≡ updated_status s
        ∷ put_object (env.getenv "S3_BUCKET_NAME") (archive_key env s pod h) (clean_log_data raw)
        ∷ read_clock
        ∷ opening s pod h

cleaned_log-lem :
    (stream : LogStream) (raw : List ℕ)
    → read_log stream [] ≡ ok raw
    → cleaned_log stream ≡ ok (clean_log_data raw)
unfolding cleaned_log
cleaned_log-lem stream raw e = rw (e, cleaned_log)

-- With every call answered, the debugger in the pod and its log read to the end, `Reconcile` makes
-- exactly these calls: the pod is read, the log opened, its clean text stored under the pod's
-- namespace, the container's name and the time, the session stored as it is and then as completed,
-- with the time.
pub reconcile-archives :
    (env : Env) (s : DebugSession) (pod : Pod) (stream : LogStream) (raw : List ℕ)
    → ((h : History) → env.pod h (target_pod (with_namespace s)) ≡ ok pod)
    → is_ephemeral_container_present pod.ephemeral_containers (debugger_name s) ≡ true
    → ((h : History) → env.log h pod.namespace pod.name (debugger_name s) ≡ ok stream)
    → read_log stream [] ≡ ok raw
    → ((h : History) (b k : String) (l : List ℕ) → env.object_answer h b k l ≡ ok tt)
    → ((h : History) (t : DebugSession) → env.status_answer h t ≡ ok t)
    → let s' = with_namespace s in
      let h₀ = opened_log pod.namespace pod.name (debugger_name s) ∷ got_pod (target_pod s') ∷ [] in
      let h₁ =
        put_object
          (env.getenv "S3_BUCKET_NAME")
          (log_key pod (debugger_name s) (env.clock h₀))
          (clean_log_data raw)
        ∷ read_clock
        ∷ h₀ in
      let h₂ = read_clock ∷ updated_status s' ∷ h₁ in
      reconcile env s [] ≡ (
        finish,
        updated_status (
              with_phase
                (with_termination_time s' (env.clock (updated_status s' ∷ h₁)))
                completed
                "Termination Completed")
            ∷ h₂,
      )
unfolding reconcile collect_log store_log fetch_ephemeral_logs update_session_status
reconcile-archives env s pod stream raw hp here hl read hs hu =
    simp (hp, here, hl, cleaned_log-lem stream raw read, hs, hu)

-- Where a log is stored with no error, the bucket accepted it and the session was stored.
store_log-stored :
    (env : Env) (s : DebugSession) (pod : Pod) (f : Fallible String (List ℕ)) (h : History)
    → (store_log env s pod f h).0.1 ≡ none
    → (log : List ℕ) × (f ≡ ok log)
      × (env.object_answer
            (read_clock ∷ h)
            (env.getenv "S3_BUCKET_NAME")
            (log_key pod (debugger_name s) (env.clock h))
            log
          ≡ ok tt)
      × ((store_log env s pod f h).1
          ≡ updated_status s
            ∷ put_object
                (env.getenv "S3_BUCKET_NAME")
                (log_key pod (debugger_name s) (env.clock h))
                log
            ∷ read_clock
            ∷ h)
unfolding store_log
store_log-stored env s pod (err e) h n = absurd (cc n)
store_log-stored env s pod (ok log) h n = (log, refl, ground arith, ground arith)

cleaned_log-ok :
    (stream : LogStream) (log : List ℕ)
    → cleaned_log stream ≡ ok log
    → (raw : List ℕ) × (read_log stream [] ≡ ok raw) × (log ≡ clean_log_data raw)
unfolding cleaned_log
cleaned_log-ok stream log e = elim (Fallible-cases (read_log stream [])) [
  | inl (raw, q) ↦ (raw, q, ground arith)
  | inr (x, q) ↦ absurd (ground arith)
]

store_log-IsArchived :
    (env : Env) (s : DebugSession) (pod : Pod) (stream : LogStream) (h : History)
    → is_ephemeral_container_present pod.ephemeral_containers (debugger_name s) ≡ true
    → env.log h pod.namespace pod.name (debugger_name s) ≡ ok stream
    → (store_log env s pod (cleaned_log stream) (opening s pod h)).0.1 ≡ none
    → IsArchived env s pod h (store_log env s pod (cleaned_log stream) (opening s pod h)).1
store_log-IsArchived env s pod stream h p o n =
    let (log, e, accepted, history) = store_log-stored env s pod (cleaned_log stream) _ n in
    let (raw, read, same) = cleaned_log-ok stream log e in
    record {
      stream = stream;
      raw = raw;
      present = p;
      opened = o;
      log_read = read;
      accepted = rw (← same) accepted;
      history = rw (← same) history;
    }

collect_log-IsArchived :
    (env : Env) (s : DebugSession) (pod : Pod) (h : History)
    → (collect_log env s pod h).0.1 ≡ none
    → IsArchived env s pod h (collect_log env s pod h).1
unfolding collect_log fetch_ephemeral_logs store_log
collect_log-IsArchived env s pod h n =
    elim (Bool-cases (is_ephemeral_container_present pod.ephemeral_containers (debugger_name s))) [
      | inr p ↦ absurd (ground arith)
      | inl p ↦ elim (Fallible-cases (env.log h pod.namespace pod.name (debugger_name s))) [
        | inr (x, q) ↦ absurd (ground arith)
        | inl (stream, q) ↦
            rw p (rw q (store_log-IsArchived env s pod stream h p q (rw q at (rw p at n))))
      ]
    ]

-- The cleanup of a session from the start of a run on: its pod was read, and the log was stored.
abbrev pub CleanedUp : Env → DebugSession → History → Type 0
CleanedUp env s h =
    (pod : Pod) × (env.pod [] (target_pod (with_namespace s)) ≡ ok pod)
    × IsArchived env (with_namespace s) pod (got_pod (target_pod (with_namespace s)) ∷ []) h

cleanup-CleanedUp :
    (env : Env) (s : DebugSession)
    → (cleanup_ephemeral_container env s []).0.1 ≡ none
    → CleanedUp env s (cleanup_ephemeral_container env s []).1
unfolding cleanup_ephemeral_container
cleanup-CleanedUp env s n = elim (Fallible-cases (env.pod [] (target_pod (with_namespace s)))) [
  | inr (x, q) ↦ absurd (ground arith)
  | inl (pod, q) ↦ (pod, q, rw q (collect_log-IsArchived env (with_namespace s) pod _ (rw q at n)))
]

-- During the cleanup the phase stays.
cleanup-phase :
    (env : Env) (s : DebugSession)
    → Updates (λ t. t.status.phase ≡ s.status.phase) (cleanup_ephemeral_container env s []).1
unfolding cleanup_ephemeral_container collect_log fetch_ephemeral_logs store_log
cleanup-phase env s = ground arith

conclude-completed :
    (env : Env) (s s' : DebugSession) (e : Option GoError) (h : History) (t : DebugSession)
    → Updates (λ t. t.status.phase ≡ s.status.phase) h
    → s.status.phase ≢ completed
    → t.status.phase ≡ completed
    → Memᴰ (updated_status t) (conclude env (s', e) h).1
    → e ≡ none
unfolding conclude
conclude-completed env s s' none h t u n c m = refl
conclude-completed env s s' (some x) h t u n c m =
    let below =
      Updates-implies (λ t. t.status.phase ≡ s.status.phase) (λ t. t.status.phase ≢ completed)
        (λ t' e c'. n (sym e ∙ c')) h u in
    absurd (Updates-mem (λ t. t.status.phase ≢ completed) t _ ((λ q. absurd (cc q)), below) m c)

-- A session that was not completed is stored as completed only after its cleanup, from the start of
-- the run on, read the pod, found the debugger in it, opened its log and read it to the end, put
-- the clean text into the bucket, which accepted it, and stored the session.
pub reconcile-CleanedUp :
    (env : Env) (s t : DebugSession)
    → s.status.phase ≢ completed
    → Memᴰ (updated_status t) (reconcile env s []).1
    → t.status.phase ≡ completed
    → CleanedUp env s (cleanup_ephemeral_container env s []).1
unfolding reconcile
reconcile-CleanedUp env s t n m c =
    let (result, h) = cleanup_ephemeral_container env s [] in
    cleanup-CleanedUp env s
      (conclude-completed env s result.0 result.1 h t (cleanup-phase env s) n c m)
