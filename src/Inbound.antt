-- ===== src/Inbound.antt =====
-- internal/inbound/cloudmonitor_event.go: reading a CloudMonitor callback.
pub mod Capture
use umodel_sre_rca.Common.{
  Result, ok, err, ◌==◌, ◌/◌, ◌>>=◌, ◌>>◌, ◌&&◌, ◌-◌, Bool, List, Option, String, [], eqb, failure,
  false, if◌then◌else◌, none, not, refuse_if, some, suc, true, zero, ◌||◌, ℕ, ◌∷◌,
}
use umodel_sre_rca.Common.Int.{ℤ, pos, negsuc}
use umodel_sre_rca.Domain.{Alert}
use umodel_sre_rca.Analysis.{codes, between}

pub data Transition : Type 0 where
  occurred recovered : Transition

abbrev pub transition_text : Transition → String
transition_text Transition.occurred = "OCCURRED"
transition_text Transition.recovered = "RECOVERED"

pub record CloudMonitorEvent : Type 0 where
  pub alert : Alert
  pub transition : Transition

-- The fields of the payload that are read; a missing one is zero. `entity_id` is that of
-- `resource.entity`.
pub record CloudMonitorPayload : Type 0 where
  pub type : String
  pub status : String
  pub workspace : String
  pub rule_id : String
  pub alert_entity_id : String
  pub time : String
  pub timestamp : ℤ
  pub entity_id : String

-- unicode.ToUpper on ASCII. Other characters stay as they are: none of them has a letter of
-- ALERT, OCCURRED or RECOVERED as its upper case.
abbrev pub upper : ℕ → ℕ
upper c = if between b'a' b'z' c then c - 32 else c

abbrev pub same_upper : List ℕ → List ℕ → Bool
same_upper [] [] = true
same_upper [] (d ∷ ds) = false
same_upper (c ∷ cs) [] = false
same_upper (c ∷ cs) (d ∷ ds) = eqb (upper c) d && same_upper cs ds

-- strings.ToUpper(value) == word
unfoldable pub is_upper_of : String → String → Bool
is_upper_of value word = same_upper (codes value) (codes word)

unfoldable pub read_transition : String → Result Transition
unfolding is_upper_of
read_transition status =
    if is_upper_of status "OCCURRED"
    then ok Transition.occurred
    else if is_upper_of status "RECOVERED"
    then ok Transition.recovered
    else err (failure "unsupported CloudMonitor alert status")

abbrev pub resource_id_of : CloudMonitorPayload → String
resource_id_of p = if p.entity_id == "" then p.alert_entity_id else p.entity_id

-- Milliseconds to whole seconds; only a positive timestamp counts.
abbrev pub seconds_of : ℤ → Result ℕ
seconds_of (pos zero) = err (failure "CloudMonitor callback requires time or timestamp")
seconds_of (pos (suc n)) = ok (suc n / 1000)
seconds_of (negsuc n) = err (failure "CloudMonitor callback requires time or timestamp")

abbrev pub first_parsed : List (Option ℕ) → Result ℕ
first_parsed [] = err (failure "parse CloudMonitor event time")
first_parsed (none ∷ rest) = first_parsed rest
first_parsed (some t ∷ rest) = ok t

-- `decode` is json.Decoder.Decode into the payload, `parse_time layout value` is time.Parse in whole
-- seconds since the epoch; `none` is their failure.
module _ (decode : List ℕ → Option CloudMonitorPayload)
    (parse_time : String → String → Option ℕ) where
  unfoldable pub cloud_monitor_event_time : String → ℤ → Result ℕ
  cloud_monitor_event_time value timestamp =
      if not (value == "")
      then first_parsed (
          parse_time "2006-01-02T15:04:05.999999999Z07:00" value
          ∷ parse_time "2006-01-02T15:04:05-0700" value
          ∷ [])
      else seconds_of timestamp

  -- The checks behind the decoder.
  unfoldable pub read_payload : CloudMonitorPayload → Result CloudMonitorEvent
  unfolding is_upper_of read_transition cloud_monitor_event_time
  read_payload p = do
    refuse_if (not (is_upper_of p.type "ALERT")) (failure "unsupported CloudMonitor event type")
    transition ← read_transition p.status
    let resource_id = resource_id_of p
    refuse_if (p.workspace == "" || (p.rule_id == "" || resource_id == ""))
        (failure "CloudMonitor callback requires workspace, ruleId, and resource entity id")
    event_at ← cloud_monitor_event_time p.time p.timestamp
    ok record {
      alert = record {
        workspace = p.workspace;
        rule_id = p.rule_id;
        resource_id = resource_id;
        state = transition_text transition;
        event_at = event_at;
      };
      transition = transition;
    }

  abbrev pub read_decoded : Option CloudMonitorPayload → Result CloudMonitorEvent
  read_decoded none = err (failure "decode CloudMonitor callback")
  read_decoded (some p) = read_payload p

  unfoldable pub parse_cloud_monitor_event : List ℕ → Result CloudMonitorEvent
  unfolding read_payload
  parse_cloud_monitor_event raw = read_decoded (decode raw)
