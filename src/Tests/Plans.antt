-- ===== src/Tests/Plans.antt =====
-- A plan with a requirement block, a gated op and an elevated op.
use gonf.Base.{
  ℕ, ◌≤◌, ◌==◌, ◌⊎◌, any, All, zero, suc, ltb, if◌then◌else◌, arith, ◌≡◌, ◌≢◌, ◌↔◌, refl, Bool,
  true, false, List, [], ◌∷◌, ◌++◌, Bytes, codes, none, some, ok, err, member, bytes_eq,
}
use gonf.Plan.{
  no_payload, user, user_payload, Kind, package_, file, command, when_begin, when_end, Predicate,
  Op, Facts, requirement_unmet, is_control_kind,
}
use gonf.Plan.Guards.{eval_all, eval_predicate, eval_fact, matches_eq_or_in}
use gonf.Plan.Order.{
  degree, waiting, lower, insert, release, kahn, ready_from, check_left, kahn_stable, add_edges,
  out_of_fuel,
}
use gonf.Plan.Order.Counts.{count, pending}
use gonf.Plan.ParentDirs.Acyclic.{Orderable}
use gonf.Plan.ParentDirs.Visits.{Within}
use gonf.Plan.Runs.Ranks.{kahn_stable-Orderable}
use gonf.Plan.Order.Edges.{add_edges-counted}
use gonf.Plan.Order.Sorts.{Before, kahn_stable-Before, kahn_stable-ne-out_of_fuel}
use gonf.Plan.Require.{
  check_requirements, validate_scopes, scope_step, scope_ok, host_facts_only, is_host_fact,
  check_walk, check_step, enter_block,
}
use gonf.Plan.Split.{split_privilege_chunks, validate_chunk_deps, validate_change_gates}
use gonf.Plan.Split.Deps.{DepsBackward, validate-deps}
use gonf.Plan.Split.Elevation.{Privileged, split-Privileged}
use gonf.Plan.Split.Gates.{GatesAreLocal, validate-gates}
use gonf.Plan.Split.Keeps.{resources, all_ops, split-resources}
use gonf.Plan.Preflight.{supports_version}
use gonf.Plan.Versions.{op_version, required_version}
use gonf.Plan.Versions.Least.{required_version-least}
use gonf.Plan.Walk.{PlanLine, Destination, apply_body}
use gonf.Plan.Walk.Blocks.{nil, resource, skip_block}
use gonf.Plan.Walk.Requirements.{apply_body-requirements}

abbrev pub op : Kind → Bytes → Bool → List Bytes → Op
op k id elevate deps = record {
  kind = k;
  version = 0;
  id = id;
  path = [];
  blob = [];
  absent = false;
  if_changed = false;
  watch = [];
  sensitive = false;
  elevate = elevate;
  deps = deps;
  all = [];
  require = [];
  name = [];
  restart = false;
  reload = false;
  enable_only = false;
  prune = false;
  payload = no_payload;
}

abbrev on_linux : Predicate
on_linux = record {
  fact = codes "goos";
  eq = codes "linux";
  in_list = [];
  negated = false;
  path_exists = [];
}

abbrev needs_linux : Op
needs_linux = record (op when_begin (codes "when") false []) {
  all = on_linux ∷ [];
  require = codes "linux only";
}

abbrev for_linux : Op
for_linux = record (op when_begin (codes "when") false []) { all = on_linux ∷ [] }

abbrev install : Op
install = op package_ (codes "pkg") true []

abbrev configure : Op
configure = op file (codes "conf") false (codes "pkg" ∷ [])

abbrev restart : Op
restart = record (op command (codes "run") false []) {
  if_changed = true;
  watch = codes "conf" ∷ [];
}

abbrev end_block : Op
end_block = op when_end [] false []

abbrev ops : List Op
ops = needs_linux ∷ install ∷ end_block ∷ configure ∷ restart ∷ []

abbrev pub at_line : ℕ → Op → PlanLine
at_line n o = record { op = o; line = n }

abbrev lines : List PlanLine
lines = at_line 2 needs_linux ∷ at_line 3 install ∷ at_line 4 end_block ∷ at_line 5 configure ∷ []

abbrev pub linux : Facts
linux = record { goos = codes "linux"; profile = []; hostname = codes "web1" }

abbrev openbsd : Facts
openbsd = record { goos = codes "openbsd"; profile = []; hostname = codes "web2" }

-- The destination's state is the list of the IDs that were applied, and a path exists once it is applied.
abbrev journal : Destination (List Bytes)
journal = record {
  path_exists = λ s p. some (member p s);
  handle = λ o s. (s ++ o.id ∷ [], none);
  cancelled = λ s. false;
}

apply_body-requirements_example :
    (apply_body journal linux [] lines []).1
    ≢ err (requirement_unmet (codes "when") (codes "linux only"))
unfolding check_requirements validate_scopes scope_step scope_ok host_facts_only is_host_fact member
    bytes_eq check_walk check_step enter_block eval_all eval_predicate eval_fact matches_eq_or_in
apply_body-requirements_example =
    apply_body-requirements journal linux [] lines refl (codes "when") (codes "linux only")

skip_block_example :
    apply_body journal openbsd []
      (at_line 2 for_linux ∷ (at_line 3 install ∷ [])
        ++ at_line 4 end_block ∷ at_line 5 configure ∷ [])
      []
    ≡ apply_body journal openbsd [] (at_line 5 configure ∷ []) []
unfolding enter_block eval_all eval_predicate eval_fact matches_eq_or_in bytes_eq is_control_kind
skip_block_example =
    skip_block journal openbsd (at_line 2 for_linux) (at_line 4 end_block) (at_line 3 install ∷ [])
      (at_line 5 configure ∷ []) [] [] refl refl refl (resource refl nil) refl

split-resources_example : resources (all_ops (split_privilege_chunks ops)) ≡ resources ops
split-resources_example = split-resources ops

split-Privileged_example : Privileged (split_privilege_chunks ops)
split-Privileged_example = split-Privileged ops

abbrev chunks : List (List Op)
chunks = (install ∷ []) ∷ (configure ∷ restart ∷ []) ∷ []

validate-deps_example : (validate_chunk_deps chunks ≡ ok tt) ↔ DepsBackward [] chunks
validate-deps_example = validate-deps chunks

validate-gates_example : (validate_change_gates chunks ≡ ok tt) ↔ GatesAreLocal [] chunks
validate-gates_example = validate-gates chunks

-- Three ops: the first waits for the second, and the third for the first.
abbrev degrees : List ℕ
degrees = 1 ∷ 0 ∷ 1 ∷ []

abbrev waiters : List (List ℕ)
waiters = (2 ∷ []) ∷ (0 ∷ []) ∷ [] ∷ []

degrees_counted : (q : ℕ) → degree q degrees ≡ pending q [] 0 waiters
unfolding degree
degrees_counted zero = refl
degrees_counted (suc zero) = refl
degrees_counted (suc (suc zero)) = refl
degrees_counted (suc (suc (suc q))) = ground arith

kahn_stable-Before_example :
    Before waiters [] (1 ∷ 0 ∷ 2 ∷ [])
    × ((q : ℕ) → count q (1 ∷ 0 ∷ 2 ∷ []) ≡ (if ltb q 3 then 1 else 0))
unfolding kahn_stable kahn ready_from release degree waiting lower insert check_left
kahn_stable-Before_example =
    kahn_stable-Before degrees waiters (1 ∷ 0 ∷ 2 ∷ []) degrees_counted refl

kahn_stable-ne-out_of_fuel_example : kahn_stable degrees waiters ≢ err out_of_fuel
kahn_stable-ne-out_of_fuel_example = kahn_stable-ne-out_of_fuel degrees waiters

-- Two ops that wait for each other, and one that waits for none.
abbrev cyclic : List ℕ
cyclic = 0 ∷ 1 ∷ 1 ∷ []

abbrev cyclic_waiters : List (List ℕ)
cyclic_waiters = [] ∷ (2 ∷ []) ∷ (1 ∷ []) ∷ []

cyclic_counted : (q : ℕ) → degree q cyclic ≡ pending q [] 0 cyclic_waiters
unfolding degree
cyclic_counted zero = refl
cyclic_counted (suc zero) = refl
cyclic_counted (suc (suc zero)) = refl
cyclic_counted (suc (suc (suc q))) = ground arith

cyclic_within : Within 3 (λ u. waiting u cyclic_waiters)
unfolding waiting
cyclic_within zero v h = absurd (h refl)
cyclic_within (suc zero) v h = (omega arith, ground arith)
cyclic_within (suc (suc zero)) v h = (omega arith, ground arith)
cyclic_within (suc (suc (suc u))) v h = absurd (h refl)

kahn_stable-Orderable_example :
    ((sorted : List ℕ) × (kahn_stable cyclic cyclic_waiters ≡ ok sorted))
    ↔ Orderable (λ u. waiting u cyclic_waiters)
kahn_stable-Orderable_example =
    kahn_stable-Orderable cyclic cyclic_waiters cyclic_counted cyclic_within

abbrev no_edges : List ℕ
no_edges = 0 ∷ 0 ∷ 0 ∷ []

abbrev no_waiters : List (List ℕ)
no_waiters = [] ∷ [] ∷ [] ∷ []

abbrev edges : List (ℕ × ℕ)
edges = (1, 0) ∷ (0, 2) ∷ []

no_edges_counted : (q : ℕ) → degree q no_edges ≡ pending q [] 0 no_waiters
unfolding degree
no_edges_counted zero = refl
no_edges_counted (suc zero) = refl
no_edges_counted (suc (suc zero)) = refl
no_edges_counted (suc (suc (suc q))) = refl

add_edges-counted_example :
    degree 2 (add_edges edges no_edges no_waiters).0
    ≡ pending 2 [] 0 (add_edges edges no_edges no_waiters).1
add_edges-counted_example =
    add_edges-counted edges no_edges no_waiters
      ((omega arith, omega arith), ((omega arith, omega arith), tt)) refl no_edges_counted 2

abbrev web_user : Op
web_user = record (op user (codes "web") true []) {
  payload = user_payload (record { manage_shell = true });
}

abbrev recorded : List Op
recorded = web_user ∷ (install ∷ [])

required_version-least_example :
    (21 ≤ required_version recorded)
    × (supports_version (required_version recorded) ≡ true)
    × All (λ op. op_version op ≤ required_version recorded) recorded
    × ((required_version recorded ≡ 21)
        ⊎ (any (λ op. op_version op == required_version recorded) recorded ≡ true))
required_version-least_example = required_version-least recorded
