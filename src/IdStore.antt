-- ===== src/IdStore.antt =====
-- internal/idstore/idstore.go: the map from (principal, idempotency key) to the job. The mutex makes
-- every method one step. A context that is already done is the argument `done`, the clock's reading
-- is `now`.
pub mod Dedupe
pub mod Keys
use go_sdk.Prelude.{
  ℕ, zero, suc, ◌+◌, Bool, true, false, List, [], ◌∷◌, ◌++◌, Option, none, some, Text, text_eq, ltb,
  nat_beq, if◌then◌else◌, Dict, lookup, insert,
}

pub record Entry : Type 0 where
  pub principal : Text
  pub key : Text
  pub job_id : Text
  pub created_at : ℕ
  pub params_hash : Text
  pub accepted : Text

abbrev pub Store : Type 0
Store = Dict Text Entry

-- `principal + "\x00" + k`
unfoldable pub store_key : Text → Text → Text
store_key principal k = principal ++ 0 ∷ k

-- What a method returns with the new store: `ok`, or the error of the context.
pub data Outcome (A : Type 0) : Type 0 where
  ok : A → Outcome A
  context_done : Outcome A

pub stamp : ℕ → Entry → Entry
stamp now e = if nat_beq e.created_at 0 then record e { created_at = now } else e

put_at : Text → Option Entry → Store → ℕ → Entry → Store × Entry × Bool
put_at k (some existing) m now e = (m, existing, false)
put_at k none m now e = (insert k (stamp now e) m, stamp now e, true)

unfoldable pub put_if_absent : Bool → Store → ℕ → Entry → Store × Outcome (Entry × Bool)
unfolding put_at stamp
put_if_absent true m now e = (m, context_done)
put_if_absent false m now e =
    let k : Text = store_key e.principal e.key in
    let r : Store × Entry × Bool = put_at k (lookup k m) m now e in (r.0, ok (r.1, r.2))

accept_at : Text → Option Entry → Store → Text → Store
accept_at k none m accepted = m
accept_at k (some e) m accepted = insert k (record e { accepted = accepted }) m

unfoldable pub set_accepted : Bool → Store → Text → Text → Text → Store × Outcome (Unit {0})
unfolding accept_at
set_accepted true m principal key accepted = (m, context_done)
set_accepted false m principal key accepted =
    let k : Text = store_key principal key in (accept_at k (lookup k m) m accepted, ok tt)

unfoldable pub get : Bool → Store → Text → Text → Outcome (Option Entry)
get true m principal key = context_done
get false m principal key = ok (lookup (store_key principal key) m)

-- The loop of `Sweep`: what is left, and how many entries went.
sweep_loop : ℕ → Store → Store × ℕ
sweep_loop older_than [] = ([], 0)
sweep_loop older_than ((k, e) ∷ m) =
    let (rest, n) = sweep_loop older_than m in
    if ltb e.created_at older_than then (rest, suc n) else ((k, e) ∷ rest, n)

unfoldable pub sweep : Bool → Store → ℕ → Store × Outcome ℕ
unfolding sweep_loop
sweep true m older_than = (m, context_done)
sweep false m older_than = let r : Store × ℕ = sweep_loop older_than m in (r.0, ok r.1)
