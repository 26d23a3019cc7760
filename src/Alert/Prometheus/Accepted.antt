-- ===== src/Alert/Prometheus/Accepted.antt =====
-- When a Prometheus alert counts as sent.
use climatik_project.Prelude.{String, none, ◌≡◌, ◌↔◌, inl, inr, arith, Option-cases, ◌∷◌}
use climatik_project.Go.Result.{ok, Result-cases}
use climatik_project.Go.Http.{Post}
use climatik_project.Go.Json.{Json}
use climatik_project.Go.Client.{Client, Reply}
use climatik_project.Alert.World.{World, AlertArgs}
use climatik_project.Alert.Prometheus.{
  PrometheusAlertManager, alert_json, format_prometheus_alert, check_reply,
  send_alert_to_prometheus, create_alert,
}

-- The alert can be marshalled, the URL parses, and the Alertmanager answers the request with 200.
pub record IsAcceptedBy (c : Client) (p : PrometheusAlertManager) (a : AlertArgs) (w w' : World)
    : Type 0 where
  pub body : String
  pub reply : Reply
  pub marshalled :
      c.marshal (alert_json (format_prometheus_alert c.now a.pod_name a.power_cap_value a.devices))
      ≡ ok body
  pub parsed : c.new_request p.alertmanager_url ≡ none
  pub answered :
      c.send (record { url = p.alertmanager_url; content_type = "application/json"; body = body })
      ≡ ok reply
  pub is_ok : reply.status_code ≡ 200
  pub posted :
      w'.sent
      ≡ record { url = p.alertmanager_url; content_type = "application/json"; body = body } ∷ w.sent

module _ (c : Client) (p : PrometheusAlertManager) (a : AlertArgs) (w : World) where
  abbrev alert_body : Json
  alert_body = alert_json (format_prometheus_alert c.now a.pod_name a.power_cap_value a.devices)

  abbrev post_of : String → Post
  post_of body = record { url = p.alertmanager_url; content_type = "application/json"; body = body }

  create_alert_accepted :
      (create_alert c p a w).0 ≡ none → IsAcceptedBy c p a w (create_alert c p a w).1
  unfolding create_alert send_alert_to_prometheus check_reply
  create_alert_accepted e = elim (Result-cases (c.marshal alert_body)) [
    | inr (x, bad) ↦ ground arith
    | inl (body, marshalled) ↦ elim (Option-cases (c.new_request p.alertmanager_url)) [
      | inr (x, bad) ↦ ground arith
      | inl parsed ↦ elim (Result-cases (c.send (post_of body))) [
        | inr (x, bad) ↦ ground arith
        | inl (reply, answered) ↦ record {
          body = body;
          reply = reply;
          marshalled = marshalled;
          parsed = parsed;
          answered = answered;
          is_ok = ground arith;
          posted = ground arith;
        }
      ]
    ]
  ]

  accepted-returns : IsAcceptedBy c p a w (create_alert c p a w).1 → (create_alert c p a w).0 ≡ none
  unfolding create_alert send_alert_to_prometheus check_reply
  accepted-returns h = ground (arith, h.marshalled, h.parsed, h.answered, h.is_ok)

  -- `CreateAlert` of the Prometheus manager returns nil exactly when the alert can be marshalled,
  -- the URL parses, and the one request that is then posted is answered with status 200.
  pub create_alert-IsAcceptedBy :
      ((create_alert c p a w).0 ≡ none) ↔ IsAcceptedBy c p a w (create_alert c p a w).1
  create_alert-IsAcceptedBy = (create_alert_accepted, accepted-returns)
