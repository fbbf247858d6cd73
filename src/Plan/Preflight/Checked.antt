-- ===== src/Plan/Preflight/Checked.antt =====
-- What a plan is like that passes the checks of its header, its negated conditions and its services.
use gonf.Base.{
  ◌≤◌, ◌≡◌, refl, true, false, not, ◌&&◌, ◌||◌, List, [], ◌∷◌, any, All, Bytes, bytes_eq_iff, codes,
  ok, err, >>=-eq-ok, if◌then◌else◌, arith,
}
use gonf.Plan.{Kind, Predicate, Op, Facts, enable_only_misused, negation_misplaced, non_empty}
use gonf.Plan.Guards.{check_platform, validate_negated_os}
use gonf.Plan.Preflight.{
  is_plan, is_when_begin, is_service, supports_version, validate_header, validate_negated_in,
  validate_negated_ops, validate_negated_os_chunks, requires_when_not_os, check_enable_only,
  validate_service_enable_only, check_negation,
}

-- The header of a plan of a version that is supported.
pub record IsHeader (header : Op) : Type 0 where
  pub kind : is_plan header.kind ≡ true
  pub from : 1 ≤ header.version
  pub to : header.version ≤ 31

pub validate_header-IsHeader : (header : Op) → validate_header header ≡ ok tt → IsHeader header
unfolding validate_header supports_version
validate_header-IsHeader header h = record {
  kind = ground arith;
  from = ground arith;
  to = ground arith;
}

-- A negated condition stands at the head of a when-block, asks for the operating system, and is asked on
-- a host where negation is supported.
pub record NegationFits (facts : Facts) (kind : Kind) (p : Predicate) : Type 0 where
  pub begins : is_when_begin kind ≡ true
  pub asks_os : p.fact ≡ codes "goos"
  pub no_path : p.path_exists ≡ []
  pub on_host : check_platform facts.goos ≡ ok tt

abbrev pub NegationsFit : Facts → Op → Type 0
NegationsFit facts op =
    All (λ (p : Predicate). p.negated ≡ true → NegationFits facts op.kind p) op.all

empty_or : (s : Bytes) → non_empty s ≡ false → s ≡ []
empty_or [] h = refl
empty_or (c ∷ s) h = cc

validate_negated_os-asks :
    (p : Predicate) → validate_negated_os p ≡ ok tt → (p.fact ≡ codes "goos") × (p.path_exists ≡ [])
unfolding validate_negated_os
validate_negated_os-asks p h =
    ((bytes_eq_iff p.fact (codes "goos")).0 (ground arith), empty_or p.path_exists (ground arith))

-- A service that is only enabled is neither restarted nor reloaded, at once or on a change.
pub record EnabledOnly (op : Op) : Type 0 where
  pub no_restart : op.restart ≡ false
  pub no_reload : op.reload ≡ false
  pub no_gate : op.if_changed ≡ false

abbrev pub EnableOnlyFits : Op → Type 0
EnableOnlyFits op = is_service op.kind ≡ true → op.enable_only ≡ true → EnabledOnly op

check_enable_only-fits : (ops : List Op) → check_enable_only ops ≡ ok tt → All EnableOnlyFits ops
unfolding check_enable_only
check_enable_only-fits [] h = tt
check_enable_only-fits (op ∷ ops) h =
    let (_, one, rest) =
      >>=-eq-ok
        (if is_service op.kind && op.enable_only && (op.restart || op.reload || op.if_changed)
          then err (enable_only_misused op.name)
          else ok tt)
        _ h in
    (
      λ s e. record { no_restart = ground arith; no_reload = ground arith; no_gate = ground arith },
      check_enable_only-fits ops rest,
    )

negated_one :
    (kind : Kind) (p : Predicate) {u : Unit {0}}
    → (if not p.negated
        then ok tt
        else if not (is_when_begin kind)
        then err negation_misplaced
        else validate_negated_os p)
      ≡ ok u
    → p.negated ≡ true
    → (is_when_begin kind ≡ true) × (validate_negated_os p ≡ ok tt)
negated_one kind p h n = (ground arith, ground arith)

negated_in-fit :
    (facts : Facts) (kind : Kind) (ps : List Predicate)
    → validate_negated_in kind ps ≡ ok tt
    → (is_when_begin kind ≡ true
        → any (λ (p : Predicate). p.negated) ps ≡ true
        → check_platform facts.goos ≡ ok tt)
    → All (λ (p : Predicate). p.negated ≡ true → NegationFits facts kind p) ps
unfolding validate_negated_in
negated_in-fit facts kind [] h k = tt
negated_in-fit facts kind (p ∷ ps) h k =
    let (_, one, rest) =
      >>=-eq-ok
        (if not p.negated
          then ok tt
          else if not (is_when_begin kind)
          then err negation_misplaced
          else validate_negated_os p)
        _ h in
    (
      λ n.
          let (begins, valid) = negated_one kind p one n in
          let (os, no_path) = validate_negated_os-asks p valid in
          record {
            begins = begins;
            asks_os = os;
            no_path = no_path;
            on_host = k begins (ground arith);
          },
      negated_in-fit facts kind ps rest (λ b a. k b (ground arith)),
    )

negated_ops-fit :
    (facts : Facts) (ops : List Op)
    → validate_negated_ops ops ≡ ok tt
    → (any requires_when_not_os ops ≡ true → check_platform facts.goos ≡ ok tt)
    → All (NegationsFit facts) ops
unfolding validate_negated_ops requires_when_not_os
negated_ops-fit facts [] h k = tt
negated_ops-fit facts (op ∷ ops) h k =
    let (_, one, rest) = >>=-eq-ok (validate_negated_in op.kind op.all) _ h in
    (
      negated_in-fit facts op.kind op.all one (λ b a. k (ground arith)),
      negated_ops-fit facts ops rest (λ a. k (ground arith)),
    )

check_negation-platform :
    (facts : Facts) (ops : List Op)
    → check_negation facts ops ≡ ok tt
    → any requires_when_not_os ops ≡ true
    → check_platform facts.goos ≡ ok tt
unfolding check_negation
check_negation-platform facts ops h k = ground arith

-- One chunk: the two checks over chunks are those of its ops.
pub one_chunk-negations :
    (facts : Facts) (ops : List Op)
    → validate_negated_os_chunks (ops ∷ []) ≡ ok tt
    → check_negation facts ops ≡ ok tt
    → All (NegationsFit facts) ops
unfolding validate_negated_os_chunks
one_chunk-negations facts ops h k =
    let (_, one, _) = >>=-eq-ok (validate_negated_ops ops) _ h in
    negated_ops-fit facts ops one (check_negation-platform facts ops k)

pub one_chunk-enable_only :
    (ops : List Op) → validate_service_enable_only (ops ∷ []) ≡ ok tt → All EnableOnlyFits ops
unfolding validate_service_enable_only
one_chunk-enable_only ops h =
    let (_, one, _) = >>=-eq-ok (check_enable_only ops) _ h in check_enable_only-fits ops one
