-- ===== src/Lease.antt =====
-- lease.go and internal/lease: lease grants, budget amounts, the per-job lease state and the subset
-- test for delegation. A capability and a currency are byte strings. An instant is a number of
-- nanoseconds. Amounts of money are the machine's floating-point numbers, which the model takes as
-- a parameter, and so are the parser and the printer of URLs.
pub mod Path
pub mod Budget
pub mod State
pub mod Subset
mod Samples
use go_sdk.Prelude.{ℕ, ◌≡◌, Bool, false, List, Option, Text, Dict, codes}

-- float64: the operations of the language and strconv.ParseFloat.
pub record Floats : Type 1 where
  pub Float : Type 0
  pub zero_f : Float
  pub add_f : Float → Float → Float
  pub sub_f : Float → Float → Float
  pub less : Float → Float → Bool
  pub less_eq : Float → Float → Bool
  pub equals : Float → Float → Bool
  pub parse_float : Text → Option Float

-- What IEEE 754 says of these operations: zero is not below itself, a sum of two amounts that are
-- not below zero is not below zero, and an amount at or below zero shows in the test against zero.
pub record IsIeee (fl : Floats) : Type 0 where
  pub zero-not_less : fl.less fl.zero_f fl.zero_f ≡ false
  pub add-not_less :
      (a b : fl.Float)
      → fl.less a fl.zero_f ≡ false
      → fl.less b fl.zero_f ≡ false
      → fl.less (fl.add_f a b) fl.zero_f ≡ false

-- net/url: the parts of a parsed URL that the code rewrites, and the rest of it.
pub record Url : Type 0 where
  pub scheme : Text
  pub host : Text
  pub path : Text
  pub rest : Text

pub record Urls : Type 0 where
  pub parse_url : Text → Option Url
  pub print_url : Url → Text

abbrev pub Capability : Type 0
Capability = Text

abbrev pub Currency : Type 0
Currency = Text

abbrev pub Lease : Type 0
Lease = Dict Capability (List Text)

-- The reserved capabilities.
abbrev pub cap_fs_read : Capability
cap_fs_read = codes "fs.read"

abbrev pub cap_fs_write : Capability
cap_fs_write = codes "fs.write"

abbrev pub cap_net_fetch : Capability
cap_net_fetch = codes "net.fetch"

abbrev pub cap_tool_call : Capability
cap_tool_call = codes "tool.call"

abbrev pub cap_agent_delegate : Capability
cap_agent_delegate = codes "agent.delegate"

abbrev pub cap_model_use : Capability
cap_model_use = codes "model.use"

abbrev pub cap_cost_budget : Capability
cap_cost_budget = codes "cost.budget"
