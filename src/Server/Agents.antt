-- ===== src/Server/Agents.antt =====
-- server/server.go: the registry of agents and versions, and the resolution of a reference.
-- An agent's function is a parameter's value. Go visits the versions of `highestVersion` in an
-- unspecified order; the order here is that of the registration.
use go_sdk.Prelude.{
  ℕ, Bool, true, false, not, ◌||◌, ◌≡◌, ◌≢◌, ◌⊎◌, arith, text_beq_iff, lookup-insert, List, [], ◌∷◌,
  Option, none, some, Text, text_beq, text_eq, ltb, nat_beq, if◌then◌else◌, Dict, lookup, insert,
  ◌++◌,
}
use go_sdk.Strings.{split, text_less}
use go_sdk.Errors.{Error, fail, agent_not_available, agent_version_not_available, about}
use go_sdk.Agent.{AgentRef, print_ref}

pub record AgentEntry (F : Type 0) : Type 0 where
  pub fn : Option F
  pub default_version : Text
  pub versions : Dict Text F

abbrev pub Registry : Type 0 → Type 0
Registry F = Dict Text (AgentEntry F)

module _ {F : Type 0} where
  abbrev pub entry_or_new : Option (AgentEntry F) → AgentEntry F
  entry_or_new none = record { fn = none; default_version = []; versions = [] }
  entry_or_new (some e) = e

  unfoldable pub register_agent : Registry F → Text → F → Registry F
  register_agent agents name f =
      insert name (record (entry_or_new (lookup name agents)) { fn = some f }) agents

  unfoldable pub register_agent_version : Registry F → Text → Text → F → Registry F
  register_agent_version agents name version f =
      let e : AgentEntry F = entry_or_new (lookup name agents) in
      insert name (record e { versions = insert version f e.versions }) agents

  has_version : Option F → Bool
  has_version none = false
  has_version (some f) = true

  set_default : Registry F → Text → Text → Option (AgentEntry F) → Registry F × Option Error
  set_default agents name version none =
      (agents, some (fail agent_not_available (about "agent " name " is not registered")))
  set_default agents name version (some e) =
      if has_version (lookup version e.versions)
      then (insert name (record e { default_version = version }) agents, none)
      else (
        agents,
        some (
            fail agent_version_not_available
              (about "" (name ++ b'@' ∷ version) " is not registered")),
      )

  unfoldable pub set_default_agent_version : Registry F → Text → Text → Registry F × Option Error
  unfolding set_default has_version
  set_default_agent_version agents name version =
      set_default agents name version (lookup name agents)

-- `strconv.Atoi`, the value shifted by 2^63 so that it is not negative.
pub record Atoi : Type 0 where
  pub atoi : Text → Option ℕ

pub data Compared : Type 0 where
  older same newer : Compared

-- One component of the two versions, by number if both are numbers.
compare_parts : Option ℕ → Option ℕ → Text → Text → Compared
unfolding text_less
compare_parts (some m) (some n) a b = if nat_beq m n then same else if ltb n m then newer else older
compare_parts m n a b = if text_beq a b then same else if text_less b a then newer else older

or_else : Compared → Compared → Compared
or_else same c = c
or_else older c = older
or_else newer c = newer

-- The function and the canonical name that a reference resolves to.
pub data Resolved (F : Type 0) : Type 0 where
  found : F → Text → Resolved F
  unresolved : Error → Resolved F

is_newer : Compared → Bool
is_newer newer = true
is_newer same = false
is_newer older = false

module _ {F : Type 0} where
  found_or : Option F → Text → Error → Resolved F
  found_or none name e = unresolved e
  found_or (some f) name e = found f name

module _ ⦃P : Atoi⦄ where
  compare_component : Text → Text → Compared
  unfolding compare_parts
  compare_component a b = compare_parts (P.atoi a) (P.atoi b) a b

  -- A component that one of the two versions lacks is the empty string.
  pub compare_all : List Text → List Text → Compared
  unfolding compare_component or_else
  compare_all [] [] = same
  compare_all (a ∷ more) [] = or_else (compare_component a []) (compare_all more [])
  compare_all [] (b ∷ rest) = or_else (compare_component [] b) (compare_all [] rest)
  compare_all (a ∷ more) (b ∷ rest) = or_else (compare_component a b) (compare_all more rest)

  unfoldable pub compare_versions : Text → Text → Compared
  unfolding compare_all
  compare_versions a b = compare_all (split b'.' a) (split b'.' b)

  highest_from : {F : Type 0} → Text → Dict Text F → Text
  unfolding is_newer
  highest_from best [] = best
  highest_from best ((v, f) ∷ rest) =
      highest_from (if text_beq best [] || is_newer (compare_versions v best) then v else best) rest

  unfoldable pub highest_version : {F : Type 0} → Dict Text F → Text
  unfolding highest_from
  highest_version versions = highest_from [] versions

  module _ {F : Type 0} where
    resolve_unpinned : AgentEntry F → Text → Option F → Resolved F
    unfolding found_or
    resolve_unpinned e name (some f) = found f name
    resolve_unpinned e name none =
        let missing : Error =
          fail agent_not_available (about "agent " name " has no registered handlers") in
        let chosen : Text = highest_version e.versions in
        found_or (lookup chosen e.versions) (name ++ b'@' ∷ chosen) missing

    resolve_entry : AgentRef → Option (AgentEntry F) → Resolved F
    unfolding found_or resolve_unpinned
    resolve_entry ref none =
        unresolved (fail agent_not_available (about "agent " ref.name " is not registered"))
    resolve_entry ref (some e) =
        if not (text_beq ref.version [])
        then found_or (lookup ref.version e.versions) (print_ref ref)
            (fail agent_version_not_available (about "" (print_ref ref) " is not registered"))
        else if not (text_beq e.default_version [])
        then found_or (lookup e.default_version e.versions) (ref.name ++ b'@' ∷ e.default_version) (
            fail agent_version_not_available
              (about "" (ref.name ++ b'@' ∷ e.default_version) " missing despite default"))
        else resolve_unpinned e ref.name e.fn

    unfoldable pub resolve_agent : Registry F → AgentRef → Resolved F
    unfolding resolve_entry
    resolve_agent agents ref = resolve_entry ref (lookup ref.name agents)

    -- A version registered under a name is what the pinned reference resolves to, under its own
    -- name, and the references to other names resolve as they did before. The version is not the
    -- empty string.
    pub resolve_agent-register_agent_version :
        (agents : Registry F) (name version : Text) (f : F) (ref : AgentRef)
        → version ≢ []
        → (ref.name ≢ name) ⊎ (ref.version ≡ version)
        → resolve_agent (register_agent_version agents name version f) ref
          ≡ (if text_beq ref.name name then found f (print_ref ref) else resolve_agent agents ref)
    resolve_agent-register_agent_version agents name version f ref some_version other =
        unfold resolve_agent register_agent_version in
        ground (
          arith,
          text_beq_iff ref.name name,
          text_beq_iff name ref.name,
          text_beq_iff version ref.version,
          text_beq_iff ref.version version,
          text_beq_iff ref.version [],
          lookup-insert name ref.name
              (record (entry_or_new (lookup name agents)) {
                versions = insert version f (entry_or_new (lookup name agents)).versions;
              })
              agents,
          lookup-insert version ref.version f (entry_or_new (lookup name agents)).versions,
        )
