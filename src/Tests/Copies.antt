-- ===== src/Tests/Copies.antt =====
-- The copies of sessions and of lists of them, on a heap with one of each.
use kube_debug_sess.Prelude.{
  true, ◌≡◌, refl, ◌<◌, inl, inr, ◌==◌, ℕ, arith, Option, none, some, List, [], ◌∷◌, if◌then◌else◌,
}
use kube_debug_sess.Prelude.Int.{pos}
use kube_debug_sess.Api.{DebugSecurityContext}
use kube_debug_sess.Api.SessionPhase.{active}
use kube_debug_sess.Api.DeepCopy.Memory.{
  Ptr, time_cell, security_cell, conditions_cell, session_cell, items_cell, list_cell, Condition,
  SessionObject, ListObject, Heap, Action, ◌>>=◌, load_as,
}
use kube_debug_sess.Api.DeepCopy.{
  Library, make, list_deep_copy_object, list_object, session_object, session_deep_copy_object,
}
use kube_debug_sess.Api.DeepCopy.Laws.{IsDocumented, Extends, bind-some, load_as-some, StatusHolds}
use kube_debug_sess.Prelude.{All}
use kube_debug_sess.Api.DeepCopy.Memory.{write}
use kube_debug_sess.Api.DeepCopy.View.{
  ObjectHolds, view, status_pointers, session_deep_copy_object-view,
}
use kube_debug_sess.Api.DeepCopy.Lists.{
  ItemsCopy, list_deep_copy_object-ItemsCopy, security_of, set_security,
  session_deep_copy_object-shares,
}

-- A library whose copies are what it documents.
abbrev load_time : Ptr → Action ℕ
load_time = load_as (λ c. elim c as (λ x. Option ℕ) [ time_cell t ↦ some t | _ ↦ none ])

abbrev plain_library : Library
plain_library = record {
  copy_time = λ p. load_time p >>= (λ t. make (time_cell t));
  copy_condition = λ c. c;
  copy_object_meta = λ m. m;
  copy_list_meta = λ m. m;
}

plain_library-IsDocumented : IsDocumented plain_library
plain_library-IsDocumented = record {
  times = λ p v h at.
      bind-some (load_time p) (λ t. make (time_cell t)) h v h
        (load_as-some _ p (time_cell v) v h at refl);
  condition_copies = λ c. refl;
  object_metas = λ m. refl;
  list_metas = λ m. refl;
}

abbrev attached_condition : Condition
attached_condition = record {
  type_name = "Attached";
  condition_status = "True";
  reason = "Ready";
  condition_message = "";
  last_transition_time = 3;
}

-- A session that has started, with a condition and with security options.
abbrev stored_session : SessionObject
stored_session = record {
  type_meta = record { kind = "DebugSession"; api_version = "v1alpha1" };
  metadata = record { name = "debug"; namespace = "shop"; uid = "7" };
  spec = record {
    target_pod_name = "web";
    target_container_name = "app";
    target_namespace = "shop";
    debugger_image = "busybox";
    ttl = pos 300;
    max_retry_count = pos 3;
    debug_security = some 2;
  };
  status = record {
    phase = active;
    message = "";
    start_time = some 0;
    termination_time = none;
    debugging_container_name = "debugger-7";
    ready_for_attach = true;
    one_time_token = "0f";
    retry_count = pos 0;
    conditions_array = some 1;
  };
}

abbrev stored_list : ListObject
stored_list = record {
  list_type_meta = record { kind = "DebugSessionList"; api_version = "v1alpha1" };
  list_metadata = record { resource_version = "12" };
  items_array = some 4;
}

abbrev rootless : DebugSecurityContext
rootless = record {
  privileged = none;
  capabilities = none;
  run_as_user = some (pos 1000);
  run_as_group = none;
  run_as_non_root = some true;
  read_only_root_filesystem = none;
  allow_privilege_escalation = none;
}

abbrev cache : Heap
cache = record {
  next = 6;
  cell = λ p.
      if p == 0
      then some (time_cell 1700000000)
      else if p == 1
      then some (conditions_cell (attached_condition ∷ []))
      else if p == 2
      then some (security_cell rootless)
      else if p == 3
      then some (session_cell stored_session)
      else if p == 4
      then some (items_cell (stored_session ∷ []))
      else if p == 5
      then some (list_cell stored_list)
      else none;
}

cache-StatusHolds : StatusHolds cache stored_session.status
cache-StatusHolds = (
  inr (0, 1700000000, refl, omega arith, refl),
  inl refl,
  inr (1, attached_condition ∷ [], refl, omega arith, refl),
)

list_deep_copy_object-ItemsCopy_example :
    (o' : ListObject) × (b : Ptr) × (l' : List SessionObject) × (h' : Heap) × (list_deep_copy_object
        plain_library
        (some 5)
        cache
      ≡ some (some (list_object 6), h'))
    × (h'.cell 6 ≡ some (list_cell o'))
    × (o' ≡ record stored_list { items_array = some b })
    × (6 < b)
    × (h'.cell b ≡ some (items_cell l'))
    × Extends cache h'
    × ItemsCopy cache h' (stored_session ∷ []) l'
list_deep_copy_object-ItemsCopy_example =
    list_deep_copy_object-ItemsCopy plain_library plain_library-IsDocumented cache 5 4 stored_list
      (stored_session ∷ []) refl refl refl (cache-StatusHolds, tt)

session_deep_copy_object-shares_example :
    (o' : SessionObject) × (h' : Heap) × (session_deep_copy_object plain_library (some 3) cache
      ≡ some (some (session_object 6), h'))
    × (h'.cell 6 ≡ some (session_cell o'))
    × (security_of (set_security h' o' rootless) stored_session ≡ some rootless)
session_deep_copy_object-shares_example =
    session_deep_copy_object-shares plain_library cache 3 2 stored_session rootless
      plain_library-IsDocumented refl cache-StatusHolds refl

cache-ObjectHolds : ObjectHolds cache stored_session
cache-ObjectHolds = (cache-StatusHolds, inr (2, rootless, refl, omega arith, refl))

session_deep_copy_object-view_example :
    (o' : SessionObject) × (h' : Heap) × (session_deep_copy_object plain_library (some 3) cache
      ≡ some (some (session_object 6), h'))
    × (h'.cell 6 ≡ some (session_cell o'))
    × (view h' o' ≡ view cache stored_session)
    × (view h' stored_session ≡ view cache stored_session)
    × All
        (λ q. view (write q (time_cell 5) h') stored_session ≡ view cache stored_session)
        (6 ∷ status_pointers o'.status)
session_deep_copy_object-view_example =
    session_deep_copy_object-view plain_library cache 3 stored_session (time_cell 5)
      plain_library-IsDocumented refl cache-ObjectHolds
