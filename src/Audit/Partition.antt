-- ===== src/Audit/Partition.antt =====
-- crates/openinvar-core/src/audit/mod.rs: what becomes of each finding that a detector raises.
use open_invar.Prelude.{
  true, not, if◌then◌else◌, ◌≡◌, refl, sym, ap, ◌∙◌, subst, ◌⊎◌, inl, inr, ◌↔◌, ⊎_elim, none, some,
  List, [], ◌∷◌, All, All-of_In, Any-of_In, Any-member, In, In-append, In-retain, map, retain, Text,
  eqb, eqb_iff, contains, contains_iff, sort, sort_by, In-sort_by, cmp, Any, arith, nat_ord,
  list_ord, pair_ord,
}
use open_invar.Rules.{severity_ord}
use open_invar.Graph.{Backend}
use open_invar.Audit.{
  Finding, Suppressed, AuditContext, Detector, finding_ord, dedup_ids, divide, severe_cmp, raised,
  run, in_scope,
}
use open_invar.Audit.Suppress.{Suppressions, reason_for, ids}

-- A finding that some detector raises, about a file in scope.
abbrev pub Raised : (P : Backend) → AuditContext P → List (Detector P) → Finding → Type 0
Raised P context [] f = ⊥
Raised P context (d ∷ rest) f =
    (In f (d.detect context) × (in_scope P context f.file ≡ true)) ⊎ Raised P context rest f

raised_iff :
    (P : Backend) (context : AuditContext P) (ds : List (Detector P)) (f : Finding)
    → In f (raised P context ds) ↔ Raised P context ds f
unfolding raised
raised_iff P context [] f = ground arith
raised_iff P context (d ∷ rest) f = ground (
  arith,
  In-append f (retain (λ (f : Finding). in_scope P context f.file) (d.detect context))
      (raised P context rest),
  In-retain (λ (f : Finding). in_scope P context f.file) f (d.detect context),
  raised_iff P context rest f,
)

divide-kept :
    (s : Suppressions) (f : Finding) (fs : List Finding)
    → In f (divide s fs).0 ↔ (In f fs × (reason_for s f.id ≡ none))
unfolding divide
divide-kept s f [] = ground arith
divide-kept s f (x ∷ fs) = ground (arith, divide-kept s f fs)

divide-suppressed :
    (s : Suppressions) (p : Suppressed) (fs : List Finding)
    → In p (divide s fs).1 ↔ (In p.finding fs × (reason_for s p.finding.id ≡ some p.reason))
unfolding divide
divide-suppressed s p [] = ground arith
divide-suppressed s p (x ∷ fs) = ground (arith, divide-suppressed s p fs)

-- One step of `dedup_ids`, for any list that stands for the rest.
abbrev joined : Finding → List Finding → List Finding
joined x rest = elim rest [ [] ↦ x ∷ [] | y ∷ ys ↦ if eqb x.id y.id then x ∷ ys else x ∷ y ∷ ys ]

joined-In : (f x : Finding) (rest : List Finding) → In f (joined x rest) → (f ≡ x) ⊎ In f rest
joined-In f x [] h = h
joined-In f x (y ∷ ys) h = ground (arith, h)

joined-head : (x : Finding) (rest : List Finding) → Any (λ h. x.id ≡ h.id) (joined x rest)
joined-head x [] = inl refl
joined-head x (y ∷ ys) = ground arith

joined-kept :
    (f x : Finding) (rest : List Finding)
    → Any (λ h. f.id ≡ h.id) rest
    → Any (λ h. f.id ≡ h.id) (joined x rest)
joined-kept f x [] h = absurd h
joined-kept f x (y ∷ ys) h = ground (arith, eqb_iff x.id y.id, h)

dedup_ids-In : (f : Finding) (fs : List Finding) → In f (dedup_ids fs) → In f fs
unfolding dedup_ids
dedup_ids-In f [] h = h
dedup_ids-In f (x ∷ fs) h =
    ⊎_elim (λ e. inl e) (λ m. inr (dedup_ids-In f fs m)) (joined-In f x (dedup_ids fs) h)

dedup_ids-kept : (f : Finding) (fs : List Finding) → In f fs → Any (λ h. f.id ≡ h.id) (dedup_ids fs)
unfolding dedup_ids
dedup_ids-kept f [] h = absurd h
dedup_ids-kept f (x ∷ fs) h =
    ⊎_elim
      (λ e.
        subst (λ id. Any (λ h. id ≡ h.id) (joined x (dedup_ids fs)))
          (ap (λ (f : Finding). f.id) (sym e)) (joined-head x (dedup_ids fs)))
      (λ m. joined-kept f x (dedup_ids fs) (dedup_ids-kept f fs m)) h

module _ (P : Backend) (context : AuditContext P) (ds : List (Detector P)) (s : Suppressions) where
  -- What the loop divides: of the findings with one id, the first in their order.
  abbrev distinct : List Finding
  distinct = dedup_ids (sort (raised P context ds))

  distinct-Raised : (f : Finding) → In f distinct → Raised P context ds f
  distinct-Raised f m =
      (raised_iff P context ds f).0
        ((In-sort_by cmp f (raised P context ds)).0 (dedup_ids-In f (sort (raised P context ds)) m))

  distinct-kept : (f : Finding) → Raised P context ds f → Any (λ h. f.id ≡ h.id) distinct
  distinct-kept f m =
      dedup_ids-kept f (sort (raised P context ds))
        ((In-sort_by cmp f (raised P context ds)).1 ((raised_iff P context ds f).1 m))

  -- Some finding with this id is raised about a file in scope.
  abbrev pub RaisedAs : Text → Type 0
  RaisedAs id = (f : Finding) × Raised P context ds f × (f.id ≡ id)

  distinct_iff : (id : Text) → Any (λ h. h.id ≡ id) distinct ↔ RaisedAs id
  distinct_iff id = (
    λ m.
        let (h, (there, e)) = Any-member (λ h. h.id ≡ id) distinct m in
        (h, distinct-Raised h there, e),
    λ (f, r, e).
        let (h, (there, same)) = Any-member (λ h. f.id ≡ h.id) distinct (distinct-kept f r) in
        Any-of_In (λ h. h.id ≡ id) h distinct (sym same ∙ e) there,
  )

  findings_iff :
      (id : Text)
      → Any (λ h. h.id ≡ id) (run P ds context s).findings
        ↔ ((reason_for s id ≡ none) × RaisedAs id)
  unfolding run
  findings_iff id =
      let kept = (divide s distinct).0 in
      (
        λ m.
            let (h, (i, e)) = Any-member (λ h. h.id ≡ id) (sort_by severe_cmp kept) m in
            let (there, allowed) =
              (divide-kept s h distinct).0 ((In-sort_by severe_cmp h kept).0 i) in
            (ap (reason_for s) (sym e) ∙ allowed, (h, distinct-Raised h there, e)),
        λ (allowed, r).
            let (h, (there, e)) = Any-member (λ h. h.id ≡ id) distinct ((distinct_iff id).1 r) in
            Any-of_In (λ h. h.id ≡ id) h (sort_by severe_cmp kept) e
              ((In-sort_by severe_cmp h kept).1
                ((divide-kept s h distinct).1 (there, ap (reason_for s) e ∙ allowed))),
      )

  suppressed_iff :
      (id reason : Text)
      → Any
          (λ (p : Suppressed). (p.finding.id ≡ id) × (p.reason ≡ reason))
          (run P ds context s).suppressed
        ↔ ((reason_for s id ≡ some reason) × RaisedAs id)
  unfolding run
  suppressed_iff id reason =
      let excused : Suppressed → Type 0 = λ p. (p.finding.id ≡ id) × (p.reason ≡ reason) in
      (
        λ m.
            let (p, (i, (e, same))) = Any-member excused (divide s distinct).1 m in
            let (there, given) = (divide-suppressed s p distinct).0 i in
            (
              ap (reason_for s) (sym e) ∙ given ∙ ap some same,
              (p.finding, distinct-Raised p.finding there, e),
            ),
        λ (given, r).
            let (h, (there, e)) = Any-member (λ h. h.id ≡ id) distinct ((distinct_iff id).1 r) in
            let p : Suppressed = record { finding = h; reason = reason } in
            Any-of_In excused p (divide s distinct).1 (e, refl)
              ((divide-suppressed s p distinct).1 (there, ap (reason_for s) e ∙ given)),
      )

  stale_iff :
      (id : Text)
      → In id (run P ds context s).stale_suppressions ↔ (
          In id (ids s)
          × (¬ In id (map (λ (p : Suppressed). p.finding.id) (run P ds context s).suppressed)))
  unfolding run
  stale_iff id =
      let matched = map (λ (p : Suppressed). p.finding.id) (divide s distinct).1 in
      ground
        (arith, In-retain (λ id. not (contains matched id)) id (ids s), contains_iff matched id)

  -- An id stands among the findings of the report exactly when a detector raises a finding with it
  -- about a file in scope and no suppression names it; it stands among the suppressed ones with a
  -- reason exactly when such a finding is raised and that is the reason the suppressions give. Every
  -- finding of the report, suppressed or not, was raised itself. A suppression is stale exactly when
  -- no suppressed finding has its id.
  pub run-Reported :
      (id reason : Text)
      → let report = run P ds context s in
        (Any (λ h. h.id ≡ id) report.findings ↔ ((reason_for s id ≡ none) × RaisedAs id))
        × (Any (λ (p : Suppressed). (p.finding.id ≡ id) × (p.reason ≡ reason)) report.suppressed
            ↔ ((reason_for s id ≡ some reason) × RaisedAs id))
        × All (Raised P context ds) report.findings
        × All (λ (p : Suppressed). Raised P context ds p.finding) report.suppressed
        × (In id report.stale_suppressions ↔ (
            In id (ids s) × (¬ In id (map (λ (p : Suppressed). p.finding.id) report.suppressed))))
  unfolding run
  run-Reported id reason = (
    findings_iff id,
    suppressed_iff id reason,
    All-of_In _ _ (λ h i.
        distinct-Raised h
          ((divide-kept s h distinct).0 ((In-sort_by severe_cmp h (divide s distinct).0).0 i)).0),
    All-of_In _ _ (λ p i. distinct-Raised p.finding ((divide-suppressed s p distinct).0 i).0),
    stale_iff id,
  )
