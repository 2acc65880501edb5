-- ===== src/Server/Submit/Handle/Atomic.antt =====
-- What a submit leaves among the jobs, on every path.
use go_sdk.Prelude.{◌≡◌, none, text_eq, lookup, All}
use go_sdk.Lease.{Floats, cap_cost_budget}
use go_sdk.Server.World.{Session}
use go_sdk.Server.Submit.{JobSubmit, Arrival, Submits, patterns_or}
use go_sdk.Server.Submit.Handle.Admission.{IsTimely, IsParsed, IsNewKey}
use go_sdk.Server.Submit.Handle.Settles.{Settles}

-- What is tested once the agent is resolved.
abbrev IsInOrder : (fl : Floats) → Submits → Arrival → Session → JobSubmit → Type 0
IsInOrder fl st a s req =
    IsTimely a.now req.expires_at
    × All (IsParsed fl) (patterns_or (lookup cap_cost_budget req.lease_request))
    × (lookup a.job_id st.world.jobs ≡ none)
    × IsNewKey st a s req
