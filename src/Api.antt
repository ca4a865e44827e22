-- ===== src/Api.antt =====
-- api/v1alpha1/debugsession_types.go: the custom resource DebugSession. Pointers are options. Of
-- the object's metadata the code reads the name, the namespace and the UID. `Conditions` stands in
-- DeepCopy alone: no reconciler reads or writes it.
pub mod DeepCopy
pub mod Registration
use kube_debug_sess.Prelude.{ℕ, String, Bool, List, Option}
use kube_debug_sess.Prelude.{◌==s◌, if◌then◌else◌}
use kube_debug_sess.Prelude.Int.{ℤ}

-- `unset` is the empty text of a new session, `other` a text that is none of the constants.
pub data SessionPhase : Type 0 where
  unset pending injecting active retrying terminating completed failed : SessionPhase
  other : String → SessionPhase

-- The text that stands for a phase in the stored object, and back.
unfoldable pub phase_text : SessionPhase → String
phase_text unset = ""
phase_text pending = "Pending"
phase_text injecting = "Injecting"
phase_text active = "Active"
phase_text retrying = "Retrying"
phase_text terminating = "Terminating"
phase_text completed = "Completed"
phase_text failed = "Failed"
phase_text (other s) = s

unfoldable pub phase_of : String → SessionPhase
phase_of s =
    if "" ==s s
    then unset
    else if "Pending" ==s s
    then pending
    else if "Injecting" ==s s
    then injecting
    else if "Active" ==s s
    then active
    else if "Retrying" ==s s
    then retrying
    else if "Terminating" ==s s
    then terminating
    else if "Completed" ==s s
    then completed
    else if "Failed" ==s s
    then failed
    else other s

-- corev1.Capabilities: a nil slice is `none`.
pub record Capabilities : Type 0 where
  pub add : Option (List String)
  pub drop : Option (List String)

pub record DebugSecurityContext : Type 0 where
  pub run_as_non_root : Option Bool
  pub run_as_user : Option ℤ
  pub run_as_group : Option ℤ
  pub privileged : Option Bool
  pub allow_privilege_escalation : Option Bool
  pub read_only_root_filesystem : Option Bool
  pub capabilities : Option Capabilities

-- `ttl` and `max_retry_count` are int32.
pub record DebugSessionSpec : Type 0 where
  pub target_pod_name : String
  pub target_container_name : String
  pub target_namespace : String
  pub debugger_image : String
  pub ttl : ℤ
  pub max_retry_count : ℤ
  pub debug_security : Option DebugSecurityContext

-- Times are seconds of the Unix clock; `retry_count` is an int, of 64 bits.
pub record DebugSessionStatus : Type 0 where
  pub phase : SessionPhase
  pub message : String
  pub start_time : Option ℕ
  pub termination_time : Option ℕ
  pub debugging_container_name : String
  pub ready_for_attach : Bool
  pub one_time_token : String
  pub retry_count : ℤ

pub record DebugSession : Type 0 where
  pub name : String
  pub namespace : String
  pub uid : String
  pub spec : DebugSessionSpec
  pub status : DebugSessionStatus
