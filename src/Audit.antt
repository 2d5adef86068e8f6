-- ===== src/Audit.antt =====
-- crates/openinvar-core/src/audit/mod.rs: findings, the detectors that raise them, and a run of the audit.
pub mod Ids
pub mod Suppress
pub mod Partition
pub mod Detectors
pub mod Callers
use open_invar.Prelude.{
  ℕ, Bool, true, false, not, ◌&&◌, if◌then◌else◌, Option, none, some, List, [], ◌∷◌, ◌++◌, map,
  retain, any, count_if, length, Text, Map, get, unwrap_or, contains, set_insert, eqb, cmp,
  then_cmp, sort, sort_by, Ordering, Ord, ord_by, ◌≡◌, ap, nat_ord, list_ord, pair_ord, arith,
}
use open_invar.Rules.{Severity, error, severity_ord}
use open_invar.Graph.{Backend, InvarGraph}
use open_invar.Delta.{GraphDelta}
use open_invar.Audit.Suppress.{Suppressions, reason_for, ids}

pub data Confidence : Type 0 where
  medium high : Confidence

abbrev pub confidence_rank : Confidence → ℕ
confidence_rank medium = 0
confidence_rank high = 1

pub confidence_rank_inj : (a b : Confidence) → confidence_rank a ≡ confidence_rank b → a ≡ b
confidence_rank_inj a b h = ground arith

instance abbrev pub confidence_ord : Ord Confidence
confidence_ord = ord_by nat_ord confidence_rank confidence_rank_inj

pub record Evidence : Type 0 where
  pub file : Text
  pub line : ℕ
  pub detail : Text

pub record Finding : Type 0 where
  pub id : Text
  pub detector : Text
  pub severity : Severity
  pub confidence : Confidence
  pub summary : Text
  pub file : Text
  pub line : ℕ
  pub evidence : List Evidence

-- The derived order goes by the fields, in the order of their declaration.
abbrev pub evidence_fields : Evidence → Text × (ℕ × Text)
evidence_fields e = (e.file, (e.line, e.detail))

abbrev of_evidence_fields : Text × (ℕ × Text) → Evidence
of_evidence_fields (file, (line, detail)) = record { file = file; line = line; detail = detail }

instance abbrev pub evidence_ord : Ord Evidence
evidence_ord = ord_by pair_ord evidence_fields (λ a b h. ap of_evidence_fields h)

abbrev pub FindingFields : Type 0
FindingFields = Text × (Text × (Severity × (Confidence × (Text × (Text × (ℕ × List Evidence))))))

abbrev pub finding_fields : Finding → FindingFields
finding_fields f =
    (f.id, (f.detector, (f.severity, (f.confidence, (f.summary, (f.file, (f.line, f.evidence)))))))

abbrev of_fields : FindingFields → Finding
of_fields (id, (detector, (severity, (confidence, (summary, (file, (line, evidence))))))) = record {
  id = id;
  detector = detector;
  severity = severity;
  confidence = confidence;
  summary = summary;
  file = file;
  line = line;
  evidence = evidence;
}

instance abbrev pub finding_ord : Ord Finding
finding_ord = ord_by pair_ord finding_fields (λ a b h. ap of_fields h)

pub record Suppressed : Type 0 where
  pub finding : Finding
  pub reason : Text

pub record AuditReport : Type 0 where
  pub findings : List Finding
  pub suppressed : List Suppressed
  pub stale_suppressions : List Text
  pub detectors_run : List Text
  pub out_of_scope_files : ℕ

-- `blocking`: the findings that fail a gate.
unfoldable pub blocking : AuditReport → List Finding
blocking report = retain (λ (f : Finding). eqb f.severity error) report.findings

unfoldable pub should_fail : AuditReport → Bool
unfolding blocking
should_fail report = elim (blocking report) [ [] ↦ false | f ∷ fs ↦ true ]

unfoldable pub count_of : AuditReport → Severity → ℕ
count_of report severity = count_if (λ (f : Finding). eqb f.severity severity) report.findings

-- `raw.dedup_by(|a, b| a.id == b.id)`
unfoldable pub dedup_ids : List Finding → List Finding
dedup_ids [] = []
dedup_ids (x ∷ xs) =
    let rest = dedup_ids xs in
    elim rest [ [] ↦ x ∷ [] | y ∷ ys ↦ if eqb x.id y.id then x ∷ ys else x ∷ y ∷ ys ]

-- The loop that divides the findings: those without a reason, and those with one.
unfoldable pub divide : Suppressions → List Finding → List Finding × List Suppressed
unfolding reason_for
divide suppressions [] = ([], [])
divide suppressions (f ∷ fs) =
    let (findings, suppressed) = divide suppressions fs in
    elim (reason_for suppressions f.id) [
      | none ↦ (f ∷ findings, suppressed)
      | some reason ↦ (findings, record { finding = f; reason = reason } ∷ suppressed)
    ]

-- Most severe first.
unfoldable pub severe_cmp : Finding → Finding → Ordering
severe_cmp a b =
    then_cmp (cmp b.severity a.severity) (then_cmp (cmp b.confidence a.confidence) (cmp a.id b.id))

module _ (P : Backend) where
  pub record AuditContext : Type 0 where
    pub before : InvarGraph P
    pub after : InvarGraph P
    pub delta : GraphDelta
    pub tier_one_files : List Text

  -- The trait `Detector`.
  pub record Detector : Type 0 where
    pub name : Text
    pub severity : Severity
    pub confidence : Confidence
    pub describes : Text
    pub detect : AuditContext → List Finding

  unfoldable pub in_scope : AuditContext → Text → Bool
  in_scope context file = contains context.tier_one_files file

  unfoldable pub assertions_comparable : AuditContext → Text → Text → Bool
  assertions_comparable context before_file after_file =
      unwrap_or (get context.before.assertions_counted before_file) false
      && unwrap_or (get context.after.assertions_counted after_file) false

  -- What the detectors raise about files in scope.
  unfoldable pub raised : AuditContext → List Detector → List Finding
  unfolding in_scope
  raised context [] = []
  raised context (detector ∷ rest) =
      retain (λ (f : Finding). in_scope context f.file) (detector.detect context)
      ++ raised context rest

  unfoldable pub run : List Detector → AuditContext → Suppressions → AuditReport
  unfolding raised dedup_ids divide severe_cmp ids
  run detectors context suppressions =
      let (findings, suppressed) =
        divide suppressions (dedup_ids (sort (raised context detectors))) in
      let matched = map (λ (s : Suppressed). s.finding.id) suppressed in
      record {
        findings = sort_by severe_cmp findings;
        suppressed = suppressed;
        stale_suppressions = retain (λ id. not (contains matched id)) (ids suppressions);
        detectors_run = map (λ (d : Detector). d.name) detectors;
        out_of_scope_files = 0;
      }
