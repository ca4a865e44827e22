-- ===== src/Reconcilers/Terminating/Archives.antt =====
-- The keys under which sessions store their logs.
use kube_debug_sess.Prelude.{
  ℕ, ◌≡◌, refl, sym, ◌∙◌, ◌≢◌, String, ◌<>◌, none, some, Option, List, [], inl, inr, arith, All,
  All-mem, Bool-cases,
}
use kube_debug_sess.Prelude.Decimal.{show_nat}
use kube_debug_sess.Prelude.Texts.{
  Lacks, Lacks-append, show_nat-Lacks, slash-joined, dash-joined, append_cancel,
}
use mathlib.Core.List.{Memᴰ}
use kube_debug_sess.Api.{DebugSession}
use kube_debug_sess.Kube.{NamespacedName, Pod, Fallible, ok, err, Fallible-cases}
use kube_debug_sess.Cluster.{Env, History, Call, put_object}
use kube_debug_sess.SessionPhases.Outcome.{GoError}
use kube_debug_sess.SessionPhases.Update.{
  with_namespace, target_pod, debugger_name, update_session_status,
}
use kube_debug_sess.Reconcilers.Containers.{is_ephemeral_container_present}
use kube_debug_sess.Reconcilers.Terminating.{
  log_key, fetch_ephemeral_logs, upload_logs_to_s3, record_cleanup, store_log, collect_log,
  cleanup_ephemeral_container, conclude, reconcile,
}

-- A key for the session's log: that of a pod in a namespace with no slash, at some time.
record IsKeyOf (uid key : String) : Type 0 where
  pod : Pod
  time : ℕ
  plain : Lacks b'/' pod.namespace
  is_key : key ≡ log_key pod ("debugger-" <> uid) time

-- Every object of the history is stored under a key for the session's log.
abbrev OnPut : String → Call → Type 0
OnPut uid (put_object bucket key log) = IsKeyOf uid key
OnPut uid _ = Unit

abbrev Archives : String → History → Type 0
Archives uid h = All (OnPut uid) h

-- The API server answers with pods whose namespaces have no slash in their names.
pub record PlainNamespaces (env : Env) : Type 0 where
  pub plain :
      (h : History) (key : NamespacedName) (pod : Pod)
      → env.pod h key ≡ ok pod
      → Lacks b'/' pod.namespace

-- Two keys with one text are for one container.
log_key-container :
    (pod pod' : Pod) (c c' : String) (t t' : ℕ)
    → Lacks b'/' pod.namespace
    → Lacks b'/' pod'.namespace
    → log_key pod c t ≡ log_key pod' c' t'
    → c ≡ c'
log_key-container pod pod' c c' t t' plain plain' e =
    let tail : (t : ℕ) → Lacks b'-' (show_nat t <> ".log") = λ t.
      Lacks-append b'-' (show_nat t) ".log" (show_nat-Lacks b'-' (omega arith) t) (omega arith) in
    let parts = append_cancel "debug-sessions/" _ _ e in
    let (ns, rest) = slash-joined pod.namespace pod'.namespace _ _ plain plain' parts in
    dash-joined c c' _ _ (tail t) (tail t') rest

module _ (env : Env) (s : DebugSession) where
  store_log-Archives :
      (pod : Pod) (f : Fallible String (List ℕ)) (h : History)
      → Lacks b'/' pod.namespace
      → Archives s.uid h
      → Archives s.uid (store_log env s pod f h).1
  unfolding store_log upload_logs_to_s3 record_cleanup
  store_log-Archives pod (err e) h p a = a
  store_log-Archives pod (ok log) h p a =
      let key : IsKeyOf s.uid (log_key pod (debugger_name s) (env.clock h)) = record {
        pod = pod;
        time = env.clock h;
        plain = p;
        is_key = refl;
      } in
      ground arith

  collect_log-Archives :
      (pod : Pod) (h : History)
      → Lacks b'/' pod.namespace
      → Archives s.uid h
      → Archives s.uid (collect_log env s pod h).1
  unfolding collect_log fetch_ephemeral_logs
  collect_log-Archives pod h p a =
      elim (Bool-cases
        (is_ephemeral_container_present pod.ephemeral_containers (debugger_name s))) [
          | inl e ↦ rw e (store_log-Archives pod _ _ p (tt, a))
          | inr e ↦ rw e a
        ]

module _ (env : Env) (plain : PlainNamespaces env) where
  conclude-Archives :
      (uid : String) (s : DebugSession) (o : Option GoError) (h : History)
      → Archives uid h
      → Archives uid (conclude env (s, o) h).1
  unfolding conclude update_session_status
  conclude-Archives uid s none h a = ground arith
  conclude-Archives uid s (some e) h a = ground arith

  cleanup-Archives :
      (s : DebugSession) (h : History)
      → Archives s.uid h
      → Archives s.uid (cleanup_ephemeral_container env s h).1
  unfolding cleanup_ephemeral_container
  cleanup-Archives s h a = elim (Fallible-cases (env.pod h (target_pod (with_namespace s)))) [
    | inr (x, e) ↦ rw e (tt, a)
    | inl (pod, e) ↦
        rw e (collect_log-Archives env (with_namespace s) pod _ (plain.plain h _ pod e) (tt, a))
  ]

  reconcile-Archives : (s : DebugSession) → Archives s.uid (reconcile env s []).1
  unfolding reconcile
  reconcile-Archives s =
      let result = cleanup_ephemeral_container env s [] in
      conclude-Archives s.uid result.0.0 result.0.1 result.1 (cleanup-Archives s [] tt)

-- Where the API server answers with pods in namespaces with no slash: two sessions with different
-- UIDs store their logs under different keys, each in a run of the terminating reconciler with its
-- own surroundings and at its own time. No session's log is stored over that of another.
pub archives_apart :
    (env env' : Env) (s s' : DebugSession) (bucket bucket' key key' : String) (log log' : List ℕ)
    → PlainNamespaces env
    → PlainNamespaces env'
    → Memᴰ (put_object bucket key log) (reconcile env s []).1
    → Memᴰ (put_object bucket' key' log') (reconcile env' s' []).1
    → s.uid ≢ s'.uid
    → key ≢ key'
archives_apart env env' s s' bucket bucket' key key' log log' plain plain' m m' apart e =
    let a = All-mem (OnPut s.uid) _ _ (reconcile-Archives env plain s) m in
    let b = All-mem (OnPut s'.uid) _ _ (reconcile-Archives env' plain' s') m' in
    let keys = sym a.is_key ∙ e ∙ b.is_key in
    apart (
      append_cancel "debugger-" s.uid s'.uid
        (log_key-container a.pod b.pod _ _ a.time b.time a.plain b.plain keys))
