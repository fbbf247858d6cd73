-- ===== src/Plan/Versions.antt =====
-- plan/sensitive.go: the plan version that ops need, and `RequiredVersion`. The versions are those of
-- plan/types.go.
pub mod Least
use gonf.Base.{
  ℕ, Bool, true, false, not, ◌&&◌, ◌||◌, List, [], ◌∷◌, any, Bytes, ◌==◌, ltb, if◌then◌else◌,
}
use gonf.PathTokens.{has_token}
use gonf.Plan.{
  Kind, service, noop, sync_dir, file, user, config_set, Payload, file_payload, sync_dir_payload,
  service_payload, user_payload, config_set_payload, Op,
}
use gonf.Plan.Preflight.{requires_when_not_os}

abbrev is_empty {ℓ} : {A : Type ℓ} → List A → Bool
is_empty [] = true
is_empty (x ∷ xs) = false

abbrev manages_shell : Kind → Payload → Bool
manages_shell user (user_payload p) = p.manage_shell
manages_shell _ _ = false

abbrev excludes : Kind → Payload → Bool
excludes sync_dir (sync_dir_payload p) = not (is_empty p.exclude)
excludes _ _ = false

abbrev prunes_glob : Kind → Payload → Bool
prunes_glob sync_dir (sync_dir_payload p) = p.glob
prunes_glob _ _ = false

-- `requiresSyncDirGlob`
unfoldable pub requires_sync_dir_glob : Op → Bool
requires_sync_dir_glob op = op.prune && prunes_glob op.kind op.payload

abbrev has_keyed_lines : Kind → Payload → Bool
has_keyed_lines file (file_payload p) = not (is_empty p.keyed_lines)
has_keyed_lines _ _ = false

-- `requiresKeyedLines`
unfoldable pub requires_keyed_lines : Op → Bool
requires_keyed_lines op = has_keyed_lines op.kind op.payload

abbrev has_blocks : Kind → Payload → Bool
has_blocks file (file_payload p) = not (is_empty p.blocks)
has_blocks _ _ = false

-- `requiresBlocks`
unfoldable pub requires_blocks : Op → Bool
requires_blocks op = has_blocks op.kind op.payload

abbrev has_home_token : Kind → Payload → Bool
has_home_token config_set (config_set_payload p) =
    has_token p.chroot || has_token p.staging_dir || any has_token p.members
has_home_token _ _ = false

-- `requiresHomeToken`
unfoldable pub requires_home_token : Op → Bool
requires_home_token op = has_home_token op.kind op.payload

abbrev flags_managed : Kind → Payload → Bool
flags_managed noop _ = true
flags_managed service (service_payload p) = p.has_flags
flags_managed _ _ = false

-- `requiresServiceFlags`
unfoldable pub requires_service_flags : Op → Bool
requires_service_flags op = flags_managed op.kind op.payload

abbrev leaves_runtime : Kind → Bool → Bool
leaves_runtime service enable_only = enable_only
leaves_runtime _ _ = false

-- `opVersion`
unfoldable pub op_version : Op → ℕ
op_version op =
    if requires_when_not_os op
    then 31
    else if leaves_runtime op.kind op.enable_only
    then 29
    else if manages_shell op.kind op.payload
    then 30
    else if excludes op.kind op.payload
    then 28
    else if requires_blocks op
    then 27
    else if requires_home_token op
    then 26
    else if requires_service_flags op
    then 25
    else if requires_sync_dir_glob op
    then 24
    else if requires_keyed_lines op
    then 23
    else if op.sensitive
    then 22
    else 21

-- `max`
abbrev pub max : ℕ → ℕ → ℕ
max a b = if ltb a b then b else a

-- The loop of `RequiredVersion`, which ends where no op can raise the version.
unfoldable pub raise_version : ℕ → List Op → ℕ
raise_version version [] = version
raise_version version (op ∷ ops) =
    let next = max version (op_version op) in
    let rest = raise_version next ops in if next == 31 then next else rest

-- `RequiredVersion`
unfoldable pub required_version : List Op → ℕ
required_version ops = raise_version 21 ops
