-- ===== src/Plan/Preflight.antt =====
-- The checks of a whole plan before anything is applied: the header (plan/codec.go), negated conditions
-- (plan/negated_os.go, plan/sensitive.go), services that are only enabled
-- (plan/service_enable_only.go), and `ValidateChunks` (plan/split.go).
pub mod Checked
use gonf.Base.{
  ℕ, Bool, true, false, not, ◌&&◌, ◌||◌, List, [], ◌∷◌, map, any, Result, ok, err, ◌>>=◌, ◌==◌, leb,
  if◌then◌else◌,
}
use gonf.Plan.{
  Kind, plan, when_begin, service, Predicate, Op, Chunk, Facts, Refusal, negation_misplaced,
  enable_only_misused,
}
use gonf.Plan.Guards.{check_platform, validate_negated_os}
use gonf.Plan.Require.{validate_requirement_scopes}
use gonf.Plan.Split.{validate_chunk_deps, validate_change_gates}

pub data HeaderError : Type 0 where
  empty_plan not_a_header missing_version : HeaderError
  unsupported_version : ℕ → HeaderError

-- `SupportsVersion`; `supportedVersions` holds 1 to 30 and `CurrentVersion`, 31
unfoldable pub supports_version : ℕ → Bool
supports_version version = leb 1 version && leb version 31

abbrev pub is_plan : Kind → Bool
is_plan plan = true
is_plan _ = false

-- `ValidateHeader`
unfoldable pub validate_header : Op → Result HeaderError (Unit {0})
validate_header header =
    if not (is_plan header.kind)
    then err not_a_header
    else if header.version == 0
    then err missing_version
    else if supports_version header.version
    then ok tt
    else err (unsupported_version header.version)

abbrev pub is_when_begin : Kind → Bool
is_when_begin when_begin = true
is_when_begin _ = false

-- The inner loops of `validateNegatedOSChunks`.
unfoldable pub validate_negated_in : Kind → List Predicate → Result Refusal (Unit {0})
validate_negated_in kind [] = ok tt
validate_negated_in kind (p ∷ ps) =
    (if not p.negated
      then ok tt
      else if not (is_when_begin kind)
      then err negation_misplaced
      else validate_negated_os p)
    >>= λ _. validate_negated_in kind ps

unfoldable pub validate_negated_ops : List Op → Result Refusal (Unit {0})
validate_negated_ops [] = ok tt
validate_negated_ops (op ∷ ops) =
    validate_negated_in op.kind op.all >>= λ _. validate_negated_ops ops

-- `validateNegatedOSChunks`
unfoldable pub validate_negated_os_chunks : List (List Op) → Result Refusal (Unit {0})
validate_negated_os_chunks [] = ok tt
validate_negated_os_chunks (ops ∷ chunks) =
    validate_negated_ops ops >>= λ _. validate_negated_os_chunks chunks

-- `requiresWhenNotOS`
unfoldable pub requires_when_not_os : Op → Bool
requires_when_not_os op = is_when_begin op.kind && any (λ (p : Predicate). p.negated) op.all

abbrev pub is_service : Kind → Bool
is_service service = true
is_service _ = false

unfoldable pub check_enable_only : List Op → Result Refusal (Unit {0})
check_enable_only [] = ok tt
check_enable_only (op ∷ ops) =
    (if is_service op.kind && op.enable_only && (op.restart || op.reload || op.if_changed)
      then err (enable_only_misused op.name)
      else ok tt)
    >>= λ _. check_enable_only ops

-- `ValidateServiceEnableOnly`
unfoldable pub validate_service_enable_only : List (List Op) → Result Refusal (Unit {0})
validate_service_enable_only [] = ok tt
validate_service_enable_only (ops ∷ chunks) =
    check_enable_only ops >>= λ _. validate_service_enable_only chunks

abbrev chunk_ops : Chunk → List Op
chunk_ops c = c.ops

-- `ValidateChunks`
unfoldable pub validate_chunks : List Chunk → Result Refusal (Unit {0})
validate_chunks chunks =
    let bodies = map chunk_ops chunks in
    validate_negated_os_chunks bodies >>= λ _. validate_service_enable_only bodies >>= λ _.
    validate_chunk_deps bodies >>= λ _.
    validate_change_gates bodies >>= λ _. validate_requirement_scopes bodies

-- The check of `ApplyWithContext` where some op needs destination negation.
unfoldable pub check_negation : Facts → List Op → Result Refusal (Unit {0})
check_negation facts ops = if any requires_when_not_os ops then check_platform facts.goos else ok tt
