-- ===== src/RuleEval/Fields/Owner.antt =====
-- rule_eval.rs: which container `owner_of` names as the owner of a field.
use open_invar.Prelude.{
  ◌<◌, ◌↔◌, All, cmp_refl, Ord, false, ◌∙◌, ◌≤◌, ◌≡◌, refl, ◌⊎◌, inl, inr, Bool, true, Option, none,
  some, List, [], ◌∷◌, In, Any, arith, retain, leb, is_le, cmp, Option-cases, Bool-cases,
  if◌then◌else◌, pair_ord, nat_ord, list_ord, ap, subst,
}
use mathlib.Core.Logic.{⊎_elim}
use open_invar.Ir.{Symbol}
use open_invar.RuleEval.Fields.{max_by_position, encloses, owner_of, position_key}

In-retain :
    (test : Symbol → Bool) (c : Symbol) (cs : List Symbol)
    → In c (retain test cs)
    → In c cs × (test c ≡ true)
In-retain test c [] h = absurd h
In-retain test c (x ∷ cs) h = elim (Bool-cases (test x)) [
  | inl passes ↦
      let split : In c (x ∷ retain test cs) =
        subst (λ b. In c (if b then x ∷ retain test cs else retain test cs)) passes h in
      ⊎_elim (λ e. (inl e, ap test e ∙ passes))
        (λ r. let (m, t) = In-retain test c cs r in (inr m, t)) split
  | inr fails ↦
      let rest : In c (retain test cs) =
        subst (λ b. In c (if b then x ∷ retain test cs else retain test cs)) fails h in
      let (m, t) = In-retain test c cs rest in (inr m, t)
]

max_member :
    (best : Option Symbol) (cs : List Symbol) (m : Symbol)
    → max_by_position best cs ≡ some m
    → (best ≡ some m) ⊎ In m cs
unfolding max_by_position
max_member best [] m h = inl h
max_member none (c ∷ cs) m h =
    inr (⊎_elim (λ e. inl (ground (arith, e))) inr (max_member (some c) cs m h))
max_member (some b) (c ∷ cs) m h =
    elim (Bool-cases (is_le (cmp (position_key b) (position_key c)))) [
      | inl later ↦ inr (
          ⊎_elim (λ e. inl (ground (arith, e))) inr
            (max_member (some c) cs m (ground (arith, h, later))))
      | inr earlier ↦
          ⊎_elim inl (λ r. inr (inr r)) (max_member (some b) cs m (ground (arith, h, earlier)))
    ]

no_start :
    (c : Symbol) (cs : List Symbol) → (◌≡◌ {A = Option Symbol} none (some c)) ⊎ In c cs → In c cs
no_start c cs (inl e) = absurd (ground arith)
no_start c cs (inr m) = m

max_some : (b : Symbol) (cs : List Symbol) → (m : Symbol) × (max_by_position (some b) cs ≡ some m)
unfolding max_by_position
max_some b [] = (b, refl)
max_some b (c ∷ cs) = elim (Bool-cases (is_le (cmp (position_key b) (position_key c)))) [
  | inl later ↦ let (m, h) = max_some c cs in (m, rw (max_by_position, later) h)
  | inr earlier ↦ let (m, h) = max_some b cs in (m, rw (max_by_position, earlier) h)
]

none_passes :
    (test : Symbol → Bool) (cs : List Symbol)
    → max_by_position none (retain test cs) ≡ none
    → ¬ Any (λ c. test c ≡ true) cs
unfolding max_by_position
none_passes test [] h = λ x. x
none_passes test (c ∷ cs) h = elim (Bool-cases (test c)) [
  | inl passes ↦
      let (m, found) = max_some c (retain test cs) in absurd (ground (arith, h, passes, found))
  | inr fails ↦
      ⊎_elim (λ t. ground (arith, t, fails)) (none_passes test cs (ground (arith, h, fails)))
]

-- `b` starts before `a`, or on the same line with an id that is not above.
abbrev pub NoLater : Symbol → Symbol → Type 0
NoLater a b =
    (b.line_start < a.line_start) ⊎ (b.line_start ≡ a.line_start) × (is_le (cmp b.id a.id) ≡ true)

NoLater-iff : (a b : Symbol) → (is_le (cmp (position_key b) (position_key a)) ≡ true) ↔ NoLater a b
NoLater-iff a b = ground arith

NoLater-self : (a : Symbol) → NoLater a a
NoLater-self a = inr (refl, rw (cmp_refl a.id) refl)

module _ {A : Type 0} ⦃o : Ord A⦄ where
  le_trans : (a b c : A) → is_le (cmp a b) ≡ true → is_le (cmp b c) ≡ true → is_le (cmp a c) ≡ true
  le_trans a b c h k = ground (arith, o.cmp-eq a b, o.cmp-eq b c, o.cmp_trans a b c, cmp_refl a)

  le_total : (a b : A) → is_le (cmp b a) ≡ false → is_le (cmp a b) ≡ true
  le_total a b h = ground (arith, o.cmp_swap a b)

NoLater-trans : (a b c : Symbol) → NoLater b c → NoLater a b → NoLater a c
NoLater-trans a b c h k = ground (arith, le_trans c.id b.id a.id)

NoLater-total : (a b : Symbol) → is_le (cmp (position_key b) (position_key a)) ≡ false → NoLater b a
NoLater-total a b h = (NoLater-iff b a).0 (le_total (position_key a) (position_key b) h)

-- What the loop has seen comes no later than what it ends with.
max_last :
    (b : Symbol) (cs : List Symbol) (m : Symbol)
    → max_by_position (some b) cs ≡ some m
    → NoLater m b × All (NoLater m) cs
unfolding max_by_position
max_last b [] m h =
    let e : b ≡ m = ground (arith, h) in (subst (λ s. NoLater s b) e (NoLater-self b), tt)
max_last b (c ∷ cs) m h = elim (Bool-cases (is_le (cmp (position_key b) (position_key c)))) [
  | inl later ↦
      let (seen, rest) = max_last c cs m (ground (arith, h, later)) in
      (NoLater-trans m c b ((NoLater-iff c b).0 later) seen, (seen, rest))
  | inr earlier ↦
      let (seen, rest) = max_last b cs m (ground (arith, h, earlier)) in
      (seen, (NoLater-trans m b c (NoLater-total c b earlier) seen, rest))
]

last_of : (cs : List Symbol) (m : Symbol) → max_by_position none cs ≡ some m → All (NoLater m) cs
unfolding max_by_position
last_of [] m h = tt
last_of (c ∷ cs) m h = max_last c cs m h

-- The containers that start no later than a field.
abbrev pub before : Symbol → List Symbol → List Symbol
before field containers = retain (λ c. leb c.line_start field.line_start) containers

pub owner_of-cases :
    (containers : List Symbol) (field : Symbol)
    → ((owner : Symbol) × (owner_of containers field ≡ some owner)
        × In owner containers
        × (owner.line_start ≤ field.line_start)
        × (((encloses field owner ≡ true)
              × All (NoLater owner) (retain (encloses field) containers))
            ⊎ ((¬ Any (λ c. encloses field c ≡ true) containers)
                × All (NoLater owner) (before field containers))))
      ⊎ ((owner_of containers field ≡ none)
          × (¬ Any (λ (c : Symbol). leb c.line_start field.line_start ≡ true) containers)
          × (¬ Any (λ c. encloses field c ≡ true) containers))
unfolding owner_of
owner_of-cases containers field =
    elim (Option-cases (max_by_position none (retain (encloses field) containers))) [
      | inr (c, inner) ↦
          let (m, around) =
            In-retain (encloses field) c containers
              (no_start c _ (max_member none (retain (encloses field) containers) c inner)) in
          inl (
            c,
            rw (owner_of, inner) refl,
            m,
            unfold encloses in ground (arith, around),
            inl (around, last_of (retain (encloses field) containers) c inner),
          )
      | inl nowhere ↦
          let outside = none_passes (encloses field) containers nowhere in
          let early : Symbol → Bool = λ c. leb c.line_start field.line_start in
          elim (Option-cases (max_by_position none (before field containers))) [
            | inr (c, last) ↦
                let (m, starts) =
                  In-retain early c containers
                    (no_start c _ (max_member none (before field containers) c last)) in
                inl (
                  c,
                  rw (owner_of, nowhere, last) refl,
                  m,
                  ground (arith, starts),
                  inr (outside, last_of (before field containers) c last),
                )
            | inl never ↦
                inr
                  (rw (owner_of, nowhere, never) refl, none_passes early containers never, outside)
          ]
    ]
