-- ===== src/Reconcilers/Containers.antt =====
-- Searches by name through the containers of a pod: `findContainerInPod` of pending_reconciler.go,
-- `isEphemeralContainerPresent` of terminating_reconciler.go, and the loops of active_reconciler.go
-- and retrying_reconciler.go that look for the debugger's status.
use kube_debug_sess.Prelude.{
  String, Bool, true, false, Option, none, some, List, [], ◌∷◌, ◌==s◌, if◌then◌else◌,
}
use kube_debug_sess.Kube.{EphemeralContainer, ContainerStatus}

-- Over `pod.Spec.Containers`.
unfoldable pub find_container : List String → String → Bool
find_container [] name = false
find_container (c ∷ cs) name = if c ==s name then true else find_container cs name

-- Over `pod.Spec.EphemeralContainers`.
unfoldable pub is_ephemeral_container_present : List EphemeralContainer → String → Bool
is_ephemeral_container_present [] name = false
is_ephemeral_container_present (c ∷ cs) name =
    if c.name ==s name then true else is_ephemeral_container_present cs name

-- Over `pod.Status.EphemeralContainerStatuses`: every body of these loops returns at the first hit.
unfoldable pub find_status : List ContainerStatus → String → Option ContainerStatus
find_status [] name = none
find_status (c ∷ cs) name = if c.name ==s name then some c else find_status cs name
