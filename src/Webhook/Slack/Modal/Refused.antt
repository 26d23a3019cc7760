-- ===== src/Webhook/Slack/Modal/Refused.antt =====
-- What a user sees of an update that an API server refuses.
use climatik_project.Prelude.{String, none, some, ◌≡◌, ◌≢◌, refl, inl, inr, subst}
use climatik_project.Go.Result.{ret, Failure, Call-cases}
use climatik_project.Go.Http.{status}
use climatik_project.Webhook.Slack.Config.{KubeApi, update_power_capping_config}
use climatik_project.Webhook.Slack.Config.Namespace.{ServerLaws, update_power_capping_config-fails}
use climatik_project.Webhook.Slack.Session.{SlackEnv, SlackHandler, Session, InteractionCallback}
use climatik_project.Webhook.Slack.Modal.{
  after_update, drop_prefix, submitted_value, handle_parameter_update,
}

module _ (env : SlackEnv) (api : KubeApi) (sh : SlackHandler) where
  -- The response is the error 500, and no message goes to Slack.
  abbrev pub IsFailed : Session api → Session api → Type 0
  IsFailed s s' = (status s'.response ≡ some 500) × (s'.calls ≡ s.calls)

  after_update-IsFailed :
      (user_id param value : String) (updated : Failure × api.S) (s : Session api)
      → updated.0 ≢ none
      → s.response.sent ≡ none
      → IsFailed s (after_update env api sh user_id param value updated s)
  after_update-IsFailed user_id param value (some e, kube) s bad unsent = (rw unsent, refl)
  after_update-IsFailed user_id param value (none, kube) s bad unsent = absurd (bad refl)

  -- Against an API server, the handler of a submitted parameter never reports a success: for a
  -- response of which nothing was sent, it panics or answers with the error 500, and the user gets
  -- no message, whatever the parameter and the value.
  pub handle_parameter_update-IsFailed :
      (laws : ServerLaws api) (payload : InteractionCallback) (s s' : Session api)
      → s.response.sent ≡ none
      → handle_parameter_update env api sh payload s ≡ ret s'
      → IsFailed s s'
  unfolding handle_parameter_update
  handle_parameter_update-IsFailed laws payload s s' unsent e =
      elim (Call-cases (drop_prefix payload.callback_id)) [
        | inr (m, bad) ↦ let no = rw bad at e in cc
        | inl (param, cut) ↦ elim (Call-cases (submitted_value payload.state)) [
          | inr (m, bad) ↦ let no = rw (cut, bad) at e in cc
          | inl (value, got) ↦
              elim (Call-cases (update_power_capping_config api s.kube param value)) [
                | inr (m, bad) ↦ let no = rw (cut, got, bad) at e in cc
                | inl (updated, returned) ↦
                    let same : after_update env api sh payload.user_id param value updated s ≡ s' =
                      cc (rw (cut, got, returned) at e) in
                    subst (IsFailed s) same (
                      after_update-IsFailed payload.user_id param value updated s
                        (update_power_capping_config-fails api laws s.kube param value updated
                          returned)
                        unsent)
              ]
        ]
      ]
