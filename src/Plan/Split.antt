-- ===== src/Plan/Split.antt =====
-- plan/split.go: `SplitPrivilegeChunks` with the hoisting of plan/require.go, and the checks of the
-- split plan, `ValidateChunkDeps` and `ValidateChangeGates`.
pub mod Keeps
pub mod Elevation
pub mod Deps
pub mod Gates
use gonf.Base.{
  ℕ, zero, suc, ◌+◌, Bool, true, false, not, ◌&&◌, ◌||◌, List, [], ◌∷◌, ◌++◌, map, any, length,
  Option, none, some, Bytes, codes, bytes_eq, Result, ok, err, ◌>>=◌, leb, ltb, ◌==◌, if◌then◌else◌,
}
use mathlib.Core.List.{reverse}
use gonf.Plan.{
  no_payload, Kind, when_begin, when_end, Op, Chunk, Refusal, dangling_dep, dangling_watch,
  later_chunk, empty_gate, foreign_watch, is_control_kind, non_empty,
}
use gonf.Plan.Require.{scope_ok, pop}

abbrev bool_eq : Bool → Bool → Bool
bool_eq true b = b
bool_eq false b = not b

-- A zero `Op` of a kind.
abbrev zero_op : Kind → Op
zero_op k = record {
  kind = k;
  version = 0;
  id = [];
  path = [];
  blob = [];
  absent = false;
  if_changed = false;
  watch = [];
  sensitive = false;
  elevate = false;
  deps = [];
  all = [];
  require = [];
  name = [];
  restart = false;
  reload = false;
  enable_only = false;
  prune = false;
  payload = no_payload;
}

-- Whether a flag at an index from `lo` to `hi` is set; `k` is the index of the list's head.
pub any_between : ℕ → ℕ → ℕ → List Bool → Bool
any_between k lo hi [] = false
any_between k lo hi (b ∷ bs) = (leb lo k && leb k hi && b) || any_between (k + 1) lo hi bs

-- Sets the flags from `lo` to `hi`.
pub raise_between : ℕ → ℕ → ℕ → List Bool → List Bool
raise_between k lo hi [] = []
raise_between k lo hi (b ∷ bs) =
    (if leb lo k && leb k hi then true else b) ∷ raise_between (k + 1) lo hi bs

-- The end of the block that begins at the innermost open frame.
pub close_block : ℕ → List ℕ → List Bool → List Bool
close_block i [] eff = eff
close_block i (start ∷ frames) eff =
    if any_between 0 start i eff then raise_between 0 start i eff else eff

-- One round of the loop of `effectiveElevate`: the open frames, innermost first, and the flags.
pub elevate_step : Kind → ℕ → List ℕ → List Bool → List ℕ × List Bool
elevate_step when_begin i frames eff = (i ∷ frames, eff)
elevate_step when_end i frames eff = (pop frames, close_block i frames eff)
elevate_step _ i frames eff = (frames, eff)

pub elevate_walk : ℕ → List Op → List ℕ → List Bool → List Bool
elevate_walk i [] frames eff = eff
elevate_walk i (op ∷ ops) frames eff =
    let (frames', eff') = elevate_step op.kind i frames eff in elevate_walk (i + 1) ops frames' eff'

-- `effectiveElevate`
pub effective_elevate : List Op → List Bool
effective_elevate body = elevate_walk 0 body [] (map (λ (op : Op). op.elevate) body)

-- The loop of `SplitPrivilegeChunks`: the flag of the current chunk and its ops so far (`body[start:i]`).
pub cut : Op → Bool → List Op → List Op → List Bool → List Chunk
cut header cur part (op ∷ ops) (e ∷ es) =
    let same = cut header cur (part ++ op ∷ []) ops es in
    let other = record { elevate = cur; ops = header ∷ part } ∷ cut header e (op ∷ []) ops es in
    if bool_eq e cur then same else other
cut header cur part _ _ = record { elevate = cur; ops = header ∷ part } ∷ []

pub cut_all : Op → List Op → List Bool → List Chunk
cut_all header (op ∷ ops) (e ∷ es) = cut header e (op ∷ []) ops es
cut_all header _ _ = record { elevate = false; ops = header ∷ [] } ∷ []

abbrev end_ops : List Op → List Op
end_ops [] = []
end_ops (op ∷ opened) = zero_op when_end ∷ end_ops opened

-- One round of `requirementStubs`, with the innermost open block first: the open blocks behind the op,
-- and the stubs that it adds.
pub stub_step : Kind → Op → List Op → List Op × List Op
stub_step when_begin op opened = (
  op ∷ opened,
  if non_empty op.require && scope_ok (op ∷ opened)
      then reverse (op ∷ opened) ++ end_ops (op ∷ opened)
      else [],
)
stub_step when_end op opened = (pop opened, [])
stub_step _ op opened = (opened, [])

pub stubs_from : List Op → List Op → List Op
stubs_from opened [] = []
stubs_from opened (op ∷ ops) =
    let (opened', stubs) = stub_step op.kind op opened in stubs ++ stubs_from opened' ops

-- `requirementStubs`
pub requirement_stubs : List Op → List Op
requirement_stubs = stubs_from []

abbrev put_behind_header : List Op → List Op → List Op
put_behind_header pending [] = []
put_behind_header pending (header ∷ ops) = header ∷ (pending ++ ops)

-- The loop of `hoistRequirements`, from the last chunk to the first: the chunks, and what is pending.
pub hoist_from : List Chunk → List Chunk × List Op
hoist_from [] = ([], [])
hoist_from (c ∷ cs) =
    let (cs', pending) = hoist_from cs in
    (record c { ops = put_behind_header pending c.ops } ∷ cs', requirement_stubs c.ops ++ pending)

-- `hoistRequirements`
pub hoist_requirements : List Chunk → List Chunk
hoist_requirements cs = (hoist_from cs).0

-- `h.ID = "chunk"` where it is empty
abbrev named : Op → Op
named h = if non_empty h.id then h else record h { id = codes "chunk" }

-- `CurrentVersion`
abbrev current_version : ℕ
current_version = 31

abbrev default_header : Op
default_header = record (zero_op Kind.plan) { version = current_version }

pub split_body : Op → List Op → List Chunk
split_body header [] = record { elevate = false; ops = header ∷ [] } ∷ []
split_body header (op ∷ ops) =
    hoist_requirements (cut_all (named header) (op ∷ ops) (effective_elevate (op ∷ ops)))

pub split_at : Kind → Op → List Op → List Chunk
split_at Kind.plan op ops = split_body op ops
split_at _ op ops = split_body default_header (op ∷ ops)

-- `SplitPrivilegeChunks`
unfoldable pub split_privilege_chunks : List Op → List Chunk
split_privilege_chunks [] = []
split_privilege_chunks (op ∷ ops) = split_at op.kind op ops

-- An op with the ID, in a chunk; no op has the empty ID.
unfoldable pub carries : Bytes → List Op → Bool
carries id ops = any (λ (op : Op). non_empty op.id && bytes_eq op.id id) ops

-- `firstChunkOf`, as the look-up in its map; `i` is the index of the first chunk of the list.
unfoldable pub first_chunk_of : ℕ → List (List Op) → Bytes → Option ℕ
first_chunk_of i [] id = none
first_chunk_of i (c ∷ cs) id = if carries id c then some i else first_chunk_of (i + 1) cs id

abbrev Lookup : Type 0
Lookup = Bytes → Option ℕ

abbrev dep_verdict : ℕ → Bytes → Bytes → Option ℕ → Result Refusal (Unit {0})
dep_verdict i op dep none = err (dangling_dep op dep)
dep_verdict i op dep (some j) = if ltb i j then err (later_chunk i op dep j) else ok tt

pub check_deps : Lookup → ℕ → Bytes → List Bytes → Result Refusal (Unit {0})
check_deps first i op [] = ok tt
check_deps first i op (dep ∷ deps) =
    dep_verdict i op dep (first dep) >>= λ _. check_deps first i op deps

pub check_ops_deps : Lookup → ℕ → List Op → Result Refusal (Unit {0})
check_ops_deps first i [] = ok tt
check_ops_deps first i (op ∷ ops) =
    check_deps first i op.id op.deps >>= λ _. check_ops_deps first i ops

pub check_chunks_deps : Lookup → ℕ → List (List Op) → Result Refusal (Unit {0})
check_chunks_deps first i [] = ok tt
check_chunks_deps first i (c ∷ cs) =
    check_ops_deps first i c >>= λ _. check_chunks_deps first (i + 1) cs

-- `ValidateChunkDeps`
unfoldable pub validate_chunk_deps : List (List Op) → Result Refusal (Unit {0})
validate_chunk_deps chunks = check_chunks_deps (first_chunk_of 0 chunks) 0 chunks

abbrev watch_verdict : ℕ → Bytes → Bytes → Option ℕ → Result Refusal (Unit {0})
watch_verdict i op watch none = err (dangling_watch op watch)
watch_verdict i op watch (some j) = if j == i then ok tt else err (foreign_watch i op watch j)

unfoldable pub check_watches : Lookup → ℕ → Bytes → List Bytes → Result Refusal (Unit {0})
check_watches first i op [] = ok tt
check_watches first i op (w ∷ ws) =
    watch_verdict i op w (first w) >>= λ _. check_watches first i op ws

-- one gated op
unfoldable pub check_gate : Lookup → ℕ → Bytes → List Bytes → Result Refusal (Unit {0})
check_gate first i op [] = err (empty_gate i op)
check_gate first i op (w ∷ ws) = check_watches first i op (w ∷ ws)

unfoldable pub check_ops_gates : Lookup → ℕ → List Op → Result Refusal (Unit {0})
check_ops_gates first i [] = ok tt
check_ops_gates first i (op ∷ ops) =
    (if op.if_changed then check_gate first i op.id op.watch else ok tt) >>= λ _.
    check_ops_gates first i ops

unfoldable pub check_chunks_gates : Lookup → ℕ → List (List Op) → Result Refusal (Unit {0})
check_chunks_gates first i [] = ok tt
check_chunks_gates first i (c ∷ cs) =
    check_ops_gates first i c >>= λ _. check_chunks_gates first (i + 1) cs

-- `ValidateChangeGates`
unfoldable pub validate_change_gates : List (List Op) → Result Refusal (Unit {0})
validate_change_gates chunks = check_chunks_gates (first_chunk_of 0 chunks) 0 chunks
