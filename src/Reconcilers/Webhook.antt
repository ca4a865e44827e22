-- ===== src/Reconcilers/Webhook.antt =====
-- The webhook of internal/controller/session_phases/reconcilers/active_reconciler.go. A payload is
-- a Go map, whose keys have no order; the fields stand here in the source's order. The request is
-- sent by a goroutine that nothing waits for, so it is a call with no answer; what the goroutine
-- reports is in Delivery. Marshalling a map of texts and numbers does not fail.
pub mod Delivery
use kube_debug_sess.Prelude.{String, Bool, true, false, none, some, ◌<>◌, ◌==s◌, if◌then◌else◌}
use text.Mathlib.Text.{find?}
use kube_debug_sess.Api.{DebugSession}
use kube_debug_sess.Kube.{Json, string, number, array, object, nil, item, end, field}
use kube_debug_sess.Cluster.{Env, M, pure, ◌>>=◌, now, post}

-- `strings.Contains`
contains : String → String → Bool
contains s part = elim (find? s part) [ none ↦ false | some _ ↦ true ]

pub data Receiver : Type 0 where
  slack discord generic : Receiver

-- The cases of the `switch`.
unfoldable pub receiver : String → Receiver
unfolding contains
receiver url =
    if contains url "hooks.slack.com"
    then slack
    else if contains url "discord.com/api/webhooks"
    then discord
    else generic

slack_text : DebugSession → String
slack_text s =
    "*KubeDebugSess – Debug session ready*\nNamespace: `"
    <> (s.spec.target_namespace
        <> ("`\nPod: `"
            <> (s.spec.target_pod_name
                <> ("`\nContainer: `"
                    <> (s.status.debugging_container_name
                        <> ("`\n\n```" <> (s.status.message <> "```")))))))

discord_text : DebugSession → String
discord_text s =
    "**Namespace:** `"
    <> (s.spec.target_namespace
        <> ("`\n**Pod:** `"
            <> (s.spec.target_pod_name
                <> ("`\n**Container:** `"
                    <> (s.status.debugging_container_name
                        <> ("`\n\n```\n" <> (s.status.message <> "\n```")))))))

module _ (env : Env) where
  unfoldable pub payload_for : Receiver → DebugSession → M Json
  unfolding slack_text discord_text
  payload_for slack s = pure (object (field "text" (string (slack_text s)) end))
  payload_for discord s = do
    t ← now env
    pure (
        object (
          field "embeds"
            (array (
              item
                (object (
                  field "title" (string "🐳 KubeDebugSess – Debug session ready") (
                    field "description" (string (discord_text s)) (
                      field "color" (number 0x00bfff)
                        (field "timestamp" (string (env.rfc3339 t)) end)))))
                nil))
            end))
  payload_for generic s = do
    t ← now env
    pure (
        object (
          field "namespace" (string s.spec.target_namespace) (
            field "pod" (string s.spec.target_pod_name) (
              field "container" (string s.status.debugging_container_name) (
                field "message" (string s.status.message)
                  (field "timestamp" (string (env.rfc3339 t)) end))))))

  unfoldable pub build_webhook_payload : String → DebugSession → M Json
  unfolding payload_for receiver
  build_webhook_payload url s = payload_for (receiver url) s

  unfoldable pub send_webhook_if_configured : DebugSession → M (Unit {0})
  send_webhook_if_configured s =
      let url = env.getenv "WEBHOOK_URL" in
      if url ==s ""
      then pure tt
      else (do payload ← build_webhook_payload url s; post env url payload)
