-- ===== src/Server/Emit/Metric.antt =====
-- server/jobcontext.go: `Metric` and `maybeEmitRemaining`, over the server's world, the lease of the
-- job and the amounts last reported to the client. The mutex over these makes the decision one step
-- with the write. An event body is JSON from a parameter, `none` if it does not marshal.
use go_sdk.Prelude.{
  ℕ, ◌≡◌, Bool, true, false, not, ◌&&◌, ◌||◌, [], Option, none, some, Text, text_beq, text_eq,
  codes, if◌then◌else◌, Dict, lookup, insert,
}
use go_sdk.Strings.{has_prefix}
use go_sdk.Lease.{Floats, Currency}
use go_sdk.Lease.State.{State, amount_at, report}
use go_sdk.Server.World.{Body, World}
use go_sdk.Server.Emit.{emit_event}

-- math.Abs, the quotient, the constant 0.05, and json.Marshal on a metric by name, value and unit.
pub record Metering (fl : Floats) : Type 0 where
  pub abs_f : fl.Float → fl.Float
  pub div_f : fl.Float → fl.Float → fl.Float
  pub five_percent : fl.Float
  pub metric_body : Text → fl.Float → Text → Option Body

pub record Meter (fl : Floats) : Type 0 where
  pub world : World
  pub lease : State fl
  pub last_remain_emit : Dict Currency fl.Float

-- The ids of the job's session and of the job.
pub record JobIds : Type 0 where
  pub session_id : Text
  pub job_id : Text

module _ (fl : Floats) (mt : Metering fl) where
  open fl use {Float, zero_f, sub_f, less, less_eq, equals}

  -- The share of the initial budget by which two amounts differ.
  abbrev pub drift : Meter fl → Currency → Float → Float → Float
  drift m cur last remaining =
      mt.div_f (mt.abs_f (sub_f last remaining)) (amount_at fl cur m.lease.initialized)

  unfoldable pub should_emit : Meter fl → Currency → Float → Option Float → Bool
  should_emit m cur remaining none = true
  should_emit m cur remaining (some last) =
      equals (amount_at fl cur m.lease.initialized) zero_f
      || less_eq mt.five_percent (drift m cur last remaining)
      || less_eq remaining zero_f

  emit_metric : Meter fl → ℕ → JobIds → Text → Float → Text → Meter fl
  emit_metric m now ids name value unit = record m {
    world =
        emit_event m.world now ids.session_id ids.job_id (codes "metric")
          (mt.metric_body name value unit);
  }

  unfoldable pub maybe_emit_remaining : Meter fl → ℕ → JobIds → Currency → Float → Meter fl
  unfolding emit_metric
  maybe_emit_remaining m now ids cur remaining =
      if should_emit m cur remaining (lookup cur m.last_remain_emit)
      then emit_metric (record m { last_remain_emit = insert cur remaining m.last_remain_emit }) now
          ids (codes "cost.budget.remaining") remaining cur
      else m

  reported : Meter fl → ℕ → JobIds → Currency → State fl × Float × Bool → Meter fl
  unfolding emit_metric
  reported m now ids cur (lease, remaining, true) =
      maybe_emit_remaining (record m { lease = lease }) now ids cur remaining
  reported m now ids cur (lease, remaining, false) = record m { lease = lease }

  unfoldable pub metric : Meter fl → ℕ → JobIds → Text → Float → Text → Meter fl
  unfolding reported emit_metric
  metric m now ids name value unit =
      let sent : Meter fl = emit_metric m now ids name value unit in
      if has_prefix name (codes "cost.") && not (text_beq unit []) && less_eq zero_f value
      then reported sent now ids unit (report fl sent.lease unit value)
      else sent

  -- The amount is sent to the client and noted as what it was told last.
  abbrev pub IsTold : Meter fl → ℕ → JobIds → Currency → Float → Meter fl → Type 0
  IsTold m now ids cur remaining after =
      (after.world
        ≡ emit_event m.world now ids.session_id ids.job_id (codes "metric")
            (mt.metric_body (codes "cost.budget.remaining") remaining cur))
      × (lookup cur after.last_remain_emit ≡ some remaining)

  -- The client was told an amount before that is near enough, and the budget is not used up.
  abbrev pub IsNear : Meter fl → Currency → Float → Type 0
  IsNear m cur remaining =
      (last : Float) × (lookup cur m.last_remain_emit ≡ some last)
      × (equals (amount_at fl cur m.lease.initialized) zero_f ≡ false)
      × (less_eq mt.five_percent (drift m cur last remaining) ≡ false)
      × (less_eq remaining zero_f ≡ false)
