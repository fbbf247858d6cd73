-- ===== src/Plan.antt =====
-- plan/types.go: the ops of a plan, with the core fields that the plan engine reads, and plan/split.go's
-- chunk. `Facts` is that of plan/apply.go. Of the kinds' own payloads (plan/op_payload.go) only what the
-- engine itself reads is kept.
pub mod Guards
pub mod Require
pub mod Order
pub mod Walk
pub mod Split
pub mod ParentDirs
pub mod Runs
pub mod Preflight
pub mod Apply
pub mod Versions
use gonf.Base.{ℕ, Bool, true, false, List, [], ◌∷◌, Bytes, bytes_eq, not}

-- `Kind`, a string in the source
pub data Kind : Type 0 where
  plan link file dir package_ command sync_dir ensure_dir ensure_file link_if_exists : Kind
  when_begin when_end timer daemon_reload cron service systemd_timer user : Kind
  config_set config_set_member noop : Kind

pub record Predicate : Type 0 where
  pub fact : Bytes
  pub eq : Bytes
  pub in_list : List Bytes
  pub negated : Bool
  pub path_exists : Bytes

-- The payloads of some kinds, with the fields that the engine reads. Keyed lines are keys and lines,
-- blocks names and lines, and of the members of a config set the paths.
pub record FilePayload : Type 0 where
  pub keyed_lines : List (Bytes × Bytes)
  pub blocks : List (Bytes × List Bytes)

pub record SyncDirPayload : Type 0 where
  pub exclude : List Bytes
  pub glob : Bool

pub record ServicePayload : Type 0 where
  pub has_flags : Bool

pub record UserPayload : Type 0 where
  pub manage_shell : Bool

pub record ConfigSetPayload : Type 0 where
  pub chroot : Bytes
  pub staging_dir : Bytes
  pub members : List Bytes

-- `OpPayload`, an interface in the source
pub data Payload : Type 0 where
  no_payload : Payload
  file_payload : FilePayload → Payload
  sync_dir_payload : SyncDirPayload → Payload
  service_payload : ServicePayload → Payload
  user_payload : UserPayload → Payload
  config_set_payload : ConfigSetPayload → Payload

-- `PayloadOf[ConfigSetPayload](op).Members`
abbrev pub payload_members : Payload → List Bytes
payload_members (config_set_payload p) = p.members
payload_members _ = []

pub record Op : Type 0 where
  pub kind : Kind
  pub version : ℕ
  pub id : Bytes
  pub path : Bytes
  pub blob : Bytes
  pub absent : Bool
  pub if_changed : Bool
  pub watch : List Bytes
  pub sensitive : Bool
  pub elevate : Bool
  pub deps : List Bytes
  pub all : List Predicate
  pub require : Bytes
  pub name : Bytes
  pub restart : Bool
  pub reload : Bool
  pub enable_only : Bool
  pub prune : Bool
  pub payload : Payload

pub record Chunk : Type 0 where
  pub elevate : Bool
  pub ops : List Op

pub record Facts : Type 0 where
  pub goos : Bytes
  pub profile : Bytes
  pub hostname : Bytes

-- What the plan engine refuses, with the values its messages name.
pub data Refusal : Type 0 where
  dangling_dep dangling_watch : Bytes → Bytes → Refusal
  later_chunk : ℕ → Bytes → Bytes → ℕ → Refusal
  empty_gate : ℕ → Bytes → Refusal
  foreign_watch : ℕ → Bytes → Bytes → ℕ → Refusal
  enable_only_misused : Bytes → Refusal
  requirement_scope : Bytes → Refusal
  requirement_unmet : Bytes → Bytes → Refusal
  negation_misplaced negation_malformed unsupported_goos empty_goos : Refusal
  empty_predicate empty_path unreadable_path duplicate_header unmatched_end : Refusal
  unknown_fact : Bytes → Refusal
  unclosed stopped : ℕ → Refusal
  handler_failed : Bytes → Refusal

-- `IsControlKind`
unfoldable pub is_control_kind : Kind → Bool
is_control_kind Kind.plan = true
is_control_kind when_begin = true
is_control_kind when_end = true
is_control_kind _ = false

-- `s != ""`
abbrev pub non_empty : Bytes → Bool
non_empty [] = false
non_empty (c ∷ r) = true
