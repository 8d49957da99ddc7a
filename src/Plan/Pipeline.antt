-- ===== src/Plan/Pipeline.antt =====
-- crates/hull-ci-plan/src/pipeline.rs, and `IsolationTier` of hull-ci-proto: the plan that a pipeline file
-- comes to.
use hull_ci.Base.{
  ℕ, ◌+◌, max, Bool, List, [], ◌∷◌, ◌++◌, Option, none, some, Text, text_eq, get, text_keys,
  if◌then◌else◌,
}

pub data IsolationTier : Type 0 where
  micro_vm container : IsolationTier

pub data Trust : Type 0 where
  trusted untrusted : Trust

unfoldable pub requested_tier : Trust → IsolationTier
requested_tier trusted = container
requested_tier untrusted = micro_vm

unfoldable pub effective_tier : Trust → (policy_floor : IsolationTier) → IsolationTier
unfolding requested_tier
effective_tier t micro_vm = micro_vm
effective_tier t container = elim (requested_tier t) [ micro_vm ↦ micro_vm | container ↦ container ]

pub data Shard : Type 0 where
  auto : Shard
  fixed : ℕ → Shard

pub data StepKind : Type 0 where
  run_kind action : Text → StepKind

pub record PlanStep : Type 0 where
  pub name : Text
  pub kind : StepKind
  pub inputs : List Text
  pub cache : List Text
  pub secrets : List Text
  pub needs : List Text
  pub shard : Option Shard
  pub timeout : Option ℕ
  pub image : Option Text
  pub continue_on_error : Bool

pub record Pipeline : Type 0 where
  pub image : Option Text
  pub trust : Option Trust
  pub cache_scope : Option Text
  pub steps : List PlanStep

unfoldable pub effective_image : PlanStep → Pipeline → Option Text
effective_image s p = elim s.image [ none ↦ p.image | some reference ↦ some reference ]

find_step : Text → List PlanStep → Option PlanStep
find_step name [] = none
find_step name (s ∷ ss) = if text_eq s.name name then some s else find_step name ss

unfoldable pub step : Pipeline → Text → Option PlanStep
unfolding find_step
step p name = find_step name p.steps

-- The deepest of the steps that a name is found for.
unfoldable pub deepest : List (Text × ℕ) → (needs : List Text) → ℕ
deepest depths [] = 0
deepest depths (n ∷ ns) = elim (get n depths) [
  | none ↦ deepest depths ns
  | some d ↦ max d (deepest depths ns)
]

-- The loop over the steps: the depths so far in their order, and the greatest.
unfoldable pub depth_from : List (Text × ℕ) → ℕ → List PlanStep → ℕ
unfolding deepest
depth_from depths top [] = top
depth_from depths top (s ∷ ss) =
    let d = 1 + deepest depths s.needs in depth_from (depths ++ (s.name, d) ∷ []) (max top d) ss

unfoldable pub depth : Pipeline → ℕ
unfolding depth_from
depth p = depth_from [] 0 p.steps
