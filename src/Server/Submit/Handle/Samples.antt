-- ===== src/Server/Submit/Handle/Samples.antt =====
-- A client that submits the same job twice under one key.
use go_sdk.Prelude.{
  ℕ, ◌+◌, ◌-◌, ◌≡◌, ◌≢◌, refl, true, false, [], ◌∷◌, none, some, Text, text_beq, text_eq, codes,
  ltb, leb, nat_beq, lookup, contains,
}
use go_sdk.Errors.{foreign, says}
use go_sdk.Features.{has_feature}
use go_sdk.Lease.{Floats}
use go_sdk.Agent.{parse_agent_ref, parse_parts, valid_agent_name}
use go_sdk.Strings.{index, has_prefix}
use go_sdk.IdStore.{put_if_absent}
use go_sdk.Server.Agents.{Atoi, resolve_agent}
use go_sdk.Server.World.{Conn, Session, register_job}
use go_sdk.Server.Session.{decoded, malformed}
use go_sdk.Server.Emit.Calls.{new_world}
use go_sdk.Server.Submit.{JobSubmit, Arrival, Services, Submits, expiry_fault, budget_fault}
use go_sdk.Server.Submit.Handle.{handle_job_submit, submit_keyed}
use go_sdk.Server.Submit.Handle.Once.{submit_all, submit_once}

-- Amounts in whole units.
abbrev whole_money : Floats
whole_money = record {
  Float = ℕ;
  zero_f = 0;
  add_f = λ a b. a + b;
  sub_f = λ a b. a - b;
  less = ltb;
  less_eq = leb;
  equals = nat_beq;
  parse_float = λ s. some 1;
}

abbrev not_numbers : Atoi
not_numbers = record { atoi = λ t. none }

abbrev services : Services ℕ whole_money
services = record {
  agents = (codes "a", record { fn = some 0; default_version = []; versions = [] }) ∷ [];
  params_hash = λ req. req.input;
  marshal = λ acc. some acc.job_id;
  unmarshal = λ raw. malformed (foreign (says "truncated"));
  provisioner = none;
  ctx_error = foreign (says "context canceled");
}

abbrev client : Session
client = record { id = codes "s"; incarnation = 0; principal = codes "p"; features = [] }

abbrev request : JobSubmit
request = record {
  agent = codes "a";
  input = codes "{}";
  lease_request = [];
  expires_at = none;
  idempotency_key = codes "k";
  max_runtime_sec = 0;
}

abbrev arrival : Text → Arrival
arrival job_id = record {
  now = 5;
  request_id = codes "r";
  env_job_id = [];
  job_id = job_id;
  trace_id = codes "t";
  put_done = false;
  set_done = false;
}

abbrev idle : Submits
idle = record { world = new_world 10 0; ids = []; started = [] }

abbrev after_first : Submits
after_first =
    handle_job_submit whole_money ⦃P = not_numbers⦄ services idle (arrival (codes "j1")) client
      (decoded request)

first_started : after_first.started ≡ codes "j1" ∷ []
unfolding handle_job_submit parse_agent_ref parse_parts index valid_agent_name text_beq
    resolve_agent lookup expiry_fault budget_fault register_job submit_keyed put_if_absent
    has_feature contains has_prefix
first_started = refl

first_ran : after_first.started ≢ []
first_ran e = let f = first_started in cc

some_key : text_beq (codes "k") [] ≡ false
unfolding text_beq
some_key = refl

submit_once_example :
    (handle_job_submit whole_money ⦃P = not_numbers⦄ services
      (submit_all whole_money ⦃P = not_numbers⦄ services after_first [])
      (arrival (codes "j2"))
      client
      (decoded request)).started
    ≡ (submit_all whole_money ⦃P = not_numbers⦄ services after_first []).started
submit_once_example =
    submit_once whole_money ⦃P = not_numbers⦄ services idle (arrival (codes "j1"))
      (arrival (codes "j2")) client client request request [] some_key refl refl first_ran

abbrev open_conn : Conn
open_conn = record {
  session = client;
  outbox = [];
  outbox_closed = false;
  ctx_done = false;
  saturated = false;
  high = 0;
  back_pressure_armed = true;
}

abbrev listening : Submits
listening = record idle { world = record idle.world { conns = (codes "s", open_conn) ∷ [] } }
