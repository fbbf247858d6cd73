-- ===== src/Plan/ParentDirs.antt =====
-- plan/pathdeps.go: the edges from an op to the ops that create the directory it stands in. An op is its
-- position; a map of positions by path is a list of its entries, in the order they were made.
pub mod Visits
pub mod Reach
pub mod Acyclic
pub mod Infer
pub mod Nearest
use gonf.Base.{
  ℕ, zero, suc, ◌+◌, Bool, true, false, not, ◌&&◌, ◌||◌, List, [], ◌∷◌, ◌++◌, map, length, any,
  Bytes, bytes_eq, path_clean, path_dir, Option, none, some, ◌==◌, if◌then◌else◌, keep,
}
use gonf.Plan.{
  payload_members, Kind, file, ensure_file, dir, sync_dir, ensure_dir, link, link_if_exists,
  config_set, Op, non_empty,
}
use gonf.Plan.Order.{waiting, add_waiter}

-- The `map[string][]int` of the source.
abbrev pub Positions : Type 0
Positions = List (Bytes × List ℕ)

-- `m[key]` with its `ok`
unfoldable pub known_at : Bytes → Positions → Option (List ℕ)
known_at key [] = none
known_at key ((k, at) ∷ m) = if bytes_eq key k then some at else known_at key m

-- `m[key]`, empty for a missing key
abbrev or_none : Option (List ℕ) → List ℕ
or_none none = []
or_none (some at) = at

unfoldable pub positions_at : Bytes → Positions → List ℕ
positions_at key m = or_none (known_at key m)

-- `m[key] = append(m[key], i)`
unfoldable pub add_position : Bytes → ℕ → Positions → Positions
add_position key i [] = (key, i ∷ []) ∷ []
add_position key i ((k, at) ∷ m) =
    let rest = add_position key i m in
    if bytes_eq key k then (k, at ++ (i ∷ [])) ∷ m else (k, at) ∷ rest

-- `createsDir`
unfoldable pub creates_dir : Kind → Op → Bool
creates_dir dir op = not op.absent && non_empty op.path
creates_dir sync_dir op = not op.absent && non_empty op.path
creates_dir ensure_dir op = not op.absent && non_empty op.path
creates_dir _ op = false

-- `dirProviders`, from the op at position `i` on
unfoldable pub dir_providers : ℕ → List Op → Positions → Positions
dir_providers i [] providers = providers
dir_providers i (op ∷ ops) providers =
    dir_providers (i + 1) ops
      (if creates_dir op.kind op then add_position (path_clean op.path) i providers else providers)

abbrev own_path : Op → List Bytes
own_path op = if non_empty op.path then op.path ∷ [] else []

-- `createdPaths` of a present op
unfoldable pub paths_of_kind : Kind → Op → List Bytes
paths_of_kind file op = own_path op
paths_of_kind ensure_file op = own_path op
paths_of_kind dir op = own_path op
paths_of_kind sync_dir op = own_path op
paths_of_kind ensure_dir op = own_path op
paths_of_kind link op = own_path op
paths_of_kind link_if_exists op = own_path op
paths_of_kind config_set op = keep non_empty (payload_members op.payload)
paths_of_kind _ op = []

-- `createdPaths`
unfoldable pub created_paths : Op → List Bytes
created_paths op = if op.absent then [] else paths_of_kind op.kind op

abbrev parent_or : Bytes → Bytes → Option (List ℕ) → Bytes
parent_or parent up none = up
parent_or parent up (some at) = parent

-- `nearestAncestor`; the walk up ends at `/` or `.`
unfoldable pub nearest_ancestor : ℕ → Bytes → Positions → Bytes
nearest_ancestor zero p providers = []
nearest_ancestor (suc fuel) p providers =
    let parent = path_dir p in
    let up = nearest_ancestor fuel parent providers in
    if bytes_eq parent p then [] else parent_or parent up (known_at parent providers)

-- The inner loop of `nearestProviders`: those of one path that are not there yet.
unfoldable pub add_new : ℕ → List ℕ → List ℕ → List ℕ
add_new self deps [] = deps
add_new self deps (dep ∷ found) =
    add_new self
      (if not (dep == self) && not (any (λ d. d == dep) deps) then deps ++ (dep ∷ []) else deps)
      found

-- The loop of `nearestProviders` over the paths; each step of the walk up but the last shortens the path.
unfoldable pub nearest_from : ℕ → Positions → List ℕ → List Bytes → List ℕ
nearest_from self providers deps [] = deps
nearest_from self providers deps (p ∷ paths) =
    let cleaned = path_clean p in
    let above = nearest_ancestor (length cleaned + 2) cleaned providers in
    nearest_from self providers (add_new self deps (positions_at above providers)) paths

-- `nearestProviders`
unfoldable pub nearest_providers : Op → ℕ → Positions → List ℕ
nearest_providers op self providers = nearest_from self providers [] (created_paths op)

-- `seen[v] == stamp`. Reading or writing past the end, which panics, does not come up: edges are
-- between positions of the ops.
unfoldable pub seen_at : ℕ → List Bool → Bool
seen_at v [] = true
seen_at zero (b ∷ seen) = b
seen_at (suc v) (b ∷ seen) = seen_at v seen

unfoldable pub mark : ℕ → List Bool → List Bool
mark v [] = []
mark zero (b ∷ seen) = true ∷ seen
mark (suc v) (b ∷ seen) = b ∷ mark v seen

-- What a search changes: `found`, `r.seen` and the part of `r.queue` from `k` on.
pub record Search : Type 0 where
  pub found : Bool
  pub seen : List Bool
  pub queue : List ℕ

-- `visit`
unfoldable pub visit : ℕ → ℕ → Search → Search
visit to v s =
    if s.found || seen_at v s.seen
    then s
    else record { found = v == to; seen = mark v s.seen; queue = s.queue ++ (v ∷ []) }

unfoldable pub visit_all : ℕ → List ℕ → Search → Search
visit_all to [] s = s
visit_all to (v ∷ vs) s = visit_all to vs (visit to v s)

-- The loop of `reaches`; `next` are the positions behind one, those of the caller before the accepted.
unfoldable pub search : ℕ → (ℕ → List ℕ) → ℕ → Bool → List Bool → List ℕ → Bool
search fuel next to true seen queue = true
search zero next to false seen queue = false
search (suc fuel) next to false seen [] = false
search (suc fuel) next to false seen (u ∷ queue) =
    let s = visit_all to (next u) (record { found = false; seen = seen; queue = queue }) in
    search fuel next to s.found s.seen s.queue

-- `make([]int, n)`, at a new stamp
unfoldable pub unseen : ℕ → List Bool
unseen zero = []
unseen (suc n) = false ∷ unseen n

-- `reaches` among `n` positions, each of which is in the queue once
unfoldable pub reaches : ℕ → (ℕ → List ℕ) → ℕ → ℕ → Bool
reaches n next from to =
    search (suc n) next to false (mark from (unseen n)) (from ∷ []) || from == to

-- The positions behind one: the caller's, and by the edges accepted so far (`extra`).
unfoldable pub with_extra : (ℕ → List ℕ) → List (List ℕ) → ℕ → List ℕ
with_extra next extra u = next u ++ waiting u extra

-- The inner loop of `InferParentDirDeps`: the edges accepted for the op at `i`, and `extra`.
unfoldable pub accept : ℕ → (ℕ → List ℕ) → ℕ → List ℕ → List (List ℕ) → List (ℕ × ℕ) × List (List ℕ)
accept n next i [] extra = ([], extra)
accept n next i (dep ∷ deps) extra =
    let skipped = accept n next i deps extra in
    let accepted = accept n next i deps (add_waiter dep i extra) in
    if reaches n (with_extra next extra) i dep then skipped else ((dep, i) ∷ accepted.0, accepted.1)

-- The outer loop, from the op at `i` on.
unfoldable pub infer_from :
    ℕ → (ℕ → List ℕ) → Positions → ℕ → List Op → List (List ℕ) → List (ℕ × ℕ)
infer_from n next providers i [] extra = []
infer_from n next providers i (op ∷ ops) extra =
    let here = accept n next i (nearest_providers op i providers) extra in
    here.0 ++ infer_from n next providers (i + 1) ops here.1

-- `make([][]int, n)`
unfoldable pub no_waiters : ℕ → List (List ℕ)
no_waiters zero = []
no_waiters (suc n) = [] ∷ no_waiters n

-- `InferParentDirDeps`: the edges, the position that is waited for first
unfoldable pub infer_parent_dir_deps : List Op → (ℕ → List ℕ) → List (ℕ × ℕ)
infer_parent_dir_deps ops next =
    infer_from (length ops) next (dir_providers 0 ops []) 0 ops (no_waiters (length ops))
