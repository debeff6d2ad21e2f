-- ===== src/Scenarios/Gateway.antt =====
-- Callbacks of one alert.
use umodel_sre_rca.Common.{ok, ◌≡◌, refl, [], ◌∷◌, none, some, exists_where, false, true}
use umodel_sre_rca.Common.Int.{pos}
use umodel_sre_rca.Domain.{Alert}
use umodel_sre_rca.Store.Tables.{empty_db}
use umodel_sre_rca.Store.Invariant.{claims}
use umodel_sre_rca.Schedule.{World}
use umodel_sre_rca.Schedule.Quiet.{still}
use umodel_sre_rca.Inbound.{
  CloudMonitorPayload, transition_text, Transition, cloud_monitor_event_time, is_upper_of,
  parse_cloud_monitor_event, read_payload, read_transition,
}
use umodel_sre_rca.Gateway.{Gate, Request, Reply, cloud_monitor_ingress, on_occurred, read_body}
use umodel_sre_rca.Gateway.Repeats.{entered, incident_of, occurred_twice}
use umodel_sre_rca.Gateway.Stranded.{callbacks, enqueue_fault-strands, fails_second}
use umodel_sre_rca.Scenarios.Leases.{no_json, queued_db}

abbrev cpu_payload : CloudMonitorPayload
cpu_payload = record {
  type = "alert";
  status = "Occurred";
  workspace = "w";
  rule_id = "r";
  alert_entity_id = "e";
  time = "";
  timestamp = pos 100999;
  entity_id = "";
}

abbrev pub gate : Gate
gate = record {
  callback_token = "secret";
  now = 101;
  incident_id = "i1";
  job_id = "j1";
  notify = none;
  decode = λ raw. some cpu_payload;
  parse_time = λ layout value. none;
  codecs = record { marshal = no_json; encode = no_json };
}

abbrev later_gate : Gate
later_gate = record gate { now = 201; incident_id = "i2"; job_id = "j2" }

abbrev pub callback : Request
callback = record { token = "secret"; body = b'{' ∷ b'}' ∷ []; is_cut_short = false }

abbrev pub cpu_alert : Alert
cpu_alert = record {
  workspace = "w";
  rule_id = "r";
  resource_id = "e";
  state = transition_text Transition.occurred;
  event_at = 100;
}

abbrev later_alert : Alert
later_alert = record cpu_alert { event_at = 200 }

-- The callback's time is cut to whole seconds, and its words may be in lower case.
callback_runs :
    cloud_monitor_ingress gate callback (still empty_db)
    ≡ on_occurred gate cpu_alert (still empty_db)
unfolding cloud_monitor_ingress parse_cloud_monitor_event read_payload read_transition is_upper_of
    cloud_monitor_event_time read_body on_occurred
callback_runs = refl

abbrev disturbed : World
disturbed = record {
  db = queued_db;
  turns = record { meanwhile = claims "a" 150 ∷ []; fault = none } ∷ [];
}

occurred_twice_example :
    (on_occurred gate cpu_alert (still empty_db)
      ≡ (ok (Reply.accepted_incident "i1" false), still (entered gate cpu_alert empty_db)))
    × (on_occurred later_gate later_alert (still (entered gate cpu_alert empty_db))
        ≡ (ok (Reply.accepted_incident "i1" true), still (entered gate cpu_alert empty_db)))
unfolding exists_where
occurred_twice_example =
    occurred_twice gate cpu_alert empty_db refl refl refl later_gate later_alert refl

enqueue_fault-strands_example :
    (on_occurred gate cpu_alert (fails_second "database is locked" empty_db) ≡ (
      ok (Reply.server_error "queue incident"),
      still (record empty_db { incidents = incident_of gate cpu_alert ∷ [] }),
    ))
    × (callbacks
          ((later_gate, later_alert) ∷ [])
          (record empty_db { incidents = incident_of gate cpu_alert ∷ [] })
        ≡ record empty_db { incidents = incident_of gate cpu_alert ∷ [] })
unfolding exists_where
enqueue_fault-strands_example =
    enqueue_fault-strands gate cpu_alert "database is locked" empty_db refl refl
      ((later_gate, later_alert) ∷ []) (refl, tt)
