-- ===== src/Webhook/Slack/Modal/Actions.antt =====
-- A payload with several actions.
use mathlib.Core.List.{reverse_aux}
use climatik_project.Prelude.{
  ℕ, String, ◌≡◌, refl, ap, ◌∙◌, none, some, List, [], ◌∷◌, arith, inl, inr, sym, ◌≢◌, Option-cases,
  Bool-cases, ◌==◌, if◌then◌else◌,
}
use climatik_project.Go.Map.{Map}
use climatik_project.Webhook.Slack.Config.{KubeApi}
use climatik_project.Webhook.Slack.Session.{
  SlackEnv, SlackHandler, Session, BlockAction, SlackCall, opened,
}
use climatik_project.Webhook.Slack.Modal.{
  parameter_modal, open_parameter_input_modal, handle_block_actions,
}

-- The modals that the actions ask for, in order.
abbrev pub modals_for : String → List BlockAction → List SlackCall
modals_for trigger_id [] = []
modals_for trigger_id (action ∷ rest) =
    if action.action_id == "select_parameter"
    then opened trigger_id (parameter_modal action.selected_value) ∷ modals_for trigger_id rest
    else modals_for trigger_id rest

module _ (env : SlackEnv) (api : KubeApi) (sh : SlackHandler) where
  block_actions_sent :
      (trigger_id : String) (actions : List BlockAction) (s : Session api) (q : ℕ × Map String)
      → s.response.sent ≡ some q
      → (handle_block_actions env api sh trigger_id actions s).response.sent ≡ some q
  unfolding handle_block_actions open_parameter_input_modal
  block_actions_sent trigger_id [] s q h = h
  block_actions_sent trigger_id (action ∷ rest) s q h =
      block_actions_sent trigger_id rest _ q (ground arith)

  open_modal_calls :
      (trigger_id parameter : String) (s : Session api)
      → (open_parameter_input_modal env api sh trigger_id parameter s).calls
        ≡ opened trigger_id (parameter_modal parameter) ∷ s.calls
  unfolding open_parameter_input_modal
  open_modal_calls trigger_id parameter s = ground arith

  one_action_calls :
      (trigger_id : String) (action : BlockAction) (s : Session api)
      → (handle_block_actions env api sh trigger_id (action ∷ []) s).calls
        ≡ reverse_aux (modals_for trigger_id (action ∷ [])) s.calls
  unfolding handle_block_actions open_parameter_input_modal
  one_action_calls trigger_id action s =
      elim (Bool-cases (action.action_id == "select_parameter")) [
        | inl is_select ↦ ground arith
        | inr other ↦ ground arith
      ]

  one_action_sent :
      (trigger_id : String) (action : BlockAction) (s : Session api)
      → (handle_block_actions env api sh trigger_id (action ∷ []) s).response.sent ≢ none
  unfolding handle_block_actions open_parameter_input_modal
  one_action_sent trigger_id action s unsent =
      elim (Bool-cases (action.action_id == "select_parameter")) [
        | inl is_select ↦ ground arith
        | inr other ↦ ground arith
      ]

  modals_for-split :
      (trigger_id : String) (action : BlockAction) (rest : List BlockAction)
      (calls : List SlackCall)
      → reverse_aux (modals_for trigger_id (action ∷ rest)) calls
        ≡ reverse_aux
            (modals_for trigger_id rest)
            (reverse_aux (modals_for trigger_id (action ∷ [])) calls)
  modals_for-split trigger_id action rest calls =
      elim (Bool-cases (action.action_id == "select_parameter")) [
        | inl is_select ↦ rw is_select
        | inr other ↦ rw other
      ]

  block_actions_calls :
      (trigger_id : String) (actions : List BlockAction) (s : Session api)
      → (handle_block_actions env api sh trigger_id actions s).calls
        ≡ reverse_aux (modals_for trigger_id actions) s.calls
  unfolding handle_block_actions
  block_actions_calls trigger_id [] s = refl
  block_actions_calls trigger_id (action ∷ rest) s =
      block_actions_calls trigger_id rest
        (handle_block_actions env api sh trigger_id (action ∷ []) s)
      ∙ ap (reverse_aux (modals_for trigger_id rest)) (one_action_calls trigger_id action s)
      ∙ sym (modals_for-split trigger_id action rest s.calls)

  sent-stays :
      (trigger_id : String) (actions : List BlockAction) (s : Session api)
      → s.response.sent ≢ none
      → (handle_block_actions env api sh trigger_id actions s).response.sent ≡ s.response.sent
  sent-stays trigger_id actions s some_sent = elim (Option-cases s.response.sent) [
    | inl unsent ↦ absurd (some_sent unsent)
    | inr (q, sent) ↦ block_actions_sent trigger_id actions s q sent ∙ sym sent
  ]

  -- Of a payload with several actions, each one that selects a parameter opens the modal of that
  -- parameter, in order, whatever becomes of the others; the status and the headers of the
  -- response are those of the first action alone.
  pub block_actions_in_order :
      (trigger_id : String) (action : BlockAction) (rest : List BlockAction) (s : Session api)
      → ((handle_block_actions env api sh trigger_id (action ∷ rest) s).calls
          ≡ reverse_aux (modals_for trigger_id (action ∷ rest)) s.calls)
        × ((handle_block_actions env api sh trigger_id (action ∷ rest) s).response.sent
            ≡ (handle_block_actions env api sh trigger_id (action ∷ []) s).response.sent)
  unfolding handle_block_actions
  block_actions_in_order trigger_id action rest s = (
    block_actions_calls trigger_id (action ∷ rest) s,
    sent-stays trigger_id rest (handle_block_actions env api sh trigger_id (action ∷ []) s)
        (one_action_sent trigger_id action s),
  )
