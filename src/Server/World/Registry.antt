-- ===== src/Server/World/Registry.antt =====
-- `registerJob` of server/server.go.
use go_sdk.Prelude.{
  ◌≡◌, ◌≢◌, ◌⊎◌, refl, none, Text, text_eq, lookup, insert, Option-cases, inl, inr, true, false,
  arith,
}
use go_sdk.Server.World.{Registered, World, register_job, is_registered}

-- An id that is free is taken; one that is not is refused.
pub register_job_cases :
    (w : World) (id : Text) (j : Registered)
    → ((lookup id w.jobs ≡ none)
        × (register_job w id j ≡ (record w { jobs = insert id j w.jobs }, true)))
      ⊎ ((lookup id w.jobs ≢ none) × (register_job w id j ≡ (w, false)))
unfolding register_job
register_job_cases w id j = elim (Option-cases (lookup id w.jobs)) [
  | inl missing ↦ inl (missing, (rw missing (unfold is_registered in refl)))
  | inr (r, found) ↦ inr ((λ missing. ground arith), rw found (unfold is_registered in refl))
]
