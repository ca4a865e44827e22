-- ===== src/Tests/Names.antt =====
-- A run at a concrete request, and whose status it stores.
use kube_debug_sess.Prelude.{refl, true, []}
use kube_debug_sess.Kube.{NamespacedName, Pod}
use kube_debug_sess.Updates.{Updates}
use kube_debug_sess.Controller.{reconcile}
use kube_debug_sess.Controller.Isolation.{IsNamed, KeepsNames, reconcile-IsNamed}
use kube_debug_sess.Tests.Samples.{calm, pod_with, waiting_for}

abbrev asked : NamespacedName
asked = record { namespace = "shop"; name = "debug" }

-- The debugger is in CrashLoopBackOff, and the run stores the session as Retrying.
abbrev crashing : Pod
crashing = pod_with true (waiting_for "CrashLoopBackOff")

crashing-KeepsNames : KeepsNames (calm crashing)
crashing-KeepsNames = record {
  names = λ h s s' e. cc;
  namespaces = λ h s s' e. cc;
  uids = λ h s s' e. cc;
}

reconcile-IsNamed_example :
    Updates (IsNamed "debug" "shop" "7") (reconcile (calm crashing) asked []).1
reconcile-IsNamed_example =
    reconcile-IsNamed (calm crashing) asked _ crashing-KeepsNames refl refl refl
