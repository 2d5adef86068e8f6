-- ===== src/Delta/Compute/Matching.antt =====
-- crates/openinvar-core/src/delta.rs: the pairs of removed and added symbols, and what is left of both.
use open_invar.Prelude.{
  ℕ, Bool, true, false, ◌≡◌, ◌≢◌, refl, sym, subst, ◌⊎◌, inl, inr, ◌↔◌, none, some, List, [], ◌∷◌,
  ◌++◌, All, All-append, Any, not-Any, All-sort_by, Map, Text, get, contains, contains-set_insert,
  set_insert, sort_by, insert_by, is_le, Ordering, Bool-cases, Option-cases, arith, nat_ord,
  list_ord, option_ord, pair_ord,
}
use open_invar.Ir.{SymbolId, Symbol}
use open_invar.Delta.{Continuity, Continuation, continuation_ord}
use open_invar.Delta.Pairing.{continuation_between}
use open_invar.Delta.Compute.{Candidate, Pairs, pair, pair_all, candidates_for, candidates}

Any-last :
    {A : Type 0} (Q : A → Type 0) (xs : List A) (x : A) → Any Q (xs ++ x ∷ []) ↔ (Any Q xs ⊎ Q x)
Any-last Q [] x = ground arith
Any-last Q (y ∷ xs) x = ground (arith, Any-last Q xs x)

-- No two elements have the same key.
abbrev pub Apart : {A : Type 0} → (A → Text) → List A → Type 0
Apart f [] = Unit
Apart f (x ∷ xs) = All (λ y. f x ≢ f y) xs × Apart f xs

module _ {A : Type 0} (f : A → Text) (c : A → A → Ordering) where
  All-insert {κ} :
      (Q : A → Type κ) (x : A) (xs : List A) → Q x → All Q xs → All Q (insert_by c x xs)
  unfolding insert_by
  All-insert Q x [] q h = (q, tt)
  All-insert Q x (y ∷ ys) q h = elim (Bool-cases (is_le (c x y))) [
    | inl le ↦ rw le (q, h)
    | inr gt ↦ rw gt (h.0, All-insert Q x ys q h.1)
  ]

  insert-Apart :
      (x : A) (xs : List A) → All (λ y. f x ≢ f y) xs → Apart f xs → Apart f (insert_by c x xs)
  unfolding insert_by
  insert-Apart x [] h k = (tt, tt)
  insert-Apart x (y ∷ ys) h k = elim (Bool-cases (is_le (c x y))) [
    | inl le ↦ rw le (h, k)
    | inr gt ↦
        rw gt (All-insert (λ z. f y ≢ f z) x ys (λ e. h.0 (sym e)) k.0, insert-Apart x ys h.1 k.1)
  ]

  pub sort_by-Apart : (xs : List A) → Apart f xs → Apart f (sort_by c xs)
  unfolding sort_by
  sort_by-Apart [] h = tt
  sort_by-Apart (x ∷ xs) h =
      insert-Apart x (sort_by c xs) ((All-sort_by (λ y. f x ≢ f y) c xs).1 h.0)
        (sort_by-Apart xs h.1)

Apart-append :
    {A : Type 0} (f : A → Text) (x : A) (xs : List A)
    → All (λ y. f y ≢ f x) xs
    → Apart f xs
    → Apart f (xs ++ x ∷ [])
Apart-append f x [] h k = (tt, tt)
Apart-append f x (y ∷ ys) h k =
    (All-append (λ z. f y ≢ f z) ys (x ∷ []) k.0 (h.0, tt), Apart-append f x ys h.1 k.1)

module _ (is_alphanumeric : ℕ → Bool) (before after : Map SymbolId Symbol) where
  -- A symbol that is gone, one that is new, and the evidence that they are the same.
  pub record IsContinued (old new : Symbol) (how : Continuation) : Type 0 where
    pub was : get before old.id ≡ some old
    pub gone : get after old.id ≡ none
    pub is : get after new.id ≡ some new
    pub fresh : get before new.id ≡ none
    pub evidence : continuation_between is_alphanumeric old new ≡ some how

  -- A candidate names two such symbols by their ids.
  pub record IsFair (c : Candidate) : Type 0 where
    old : Symbol
    new : Symbol
    how : Continuation
    named : c ≡ (c.0, (old.id, (new.id, how)))
    continued : IsContinued old new how

  pub record IsMatching (s : Pairs) : Type 0 where
    pub befores :
        (id : Text)
        → (contains s.paired_before id ≡ true)
          ↔ Any (λ (c : Continuity). c.before.id ≡ id) s.continuities
    pub afters :
        (id : Text)
        → (contains s.paired_after id ≡ true)
          ↔ Any (λ (c : Continuity). c.after.id ≡ id) s.continuities
    pub each : All (λ (c : Continuity). IsContinued c.before c.after c.how) s.continuities
    pub apart_before : Apart (λ (c : Continuity). c.before.id) s.continuities
    pub apart_after : Apart (λ (c : Continuity). c.after.id) s.continuities

  module _ (old new : Symbol) (how : Continuation) (h : IsContinued old new how) (s : Pairs)
      (m : IsMatching s) where
    abbrev linked : Continuity
    linked = record { before = old; after = new; how = how }

    abbrev grown : Pairs
    grown = record {
      paired_before = set_insert old.id s.paired_before;
      paired_after = set_insert new.id s.paired_after;
      continuities = s.continuities ++ linked ∷ [];
    }

    grown-IsMatching :
        contains s.paired_before old.id ≡ false
        → contains s.paired_after new.id ≡ false
        → IsMatching grown
    grown-IsMatching free_before free_after = record {
      befores = λ id. ground (
        arith,
        contains-set_insert id old.id s.paired_before,
        m.befores id,
        Any-last (λ (c : Continuity). c.before.id ≡ id) s.continuities linked,
      );
      afters = λ id. ground (
        arith,
        contains-set_insert id new.id s.paired_after,
        m.afters id,
        Any-last (λ (c : Continuity). c.after.id ≡ id) s.continuities linked,
      );
      each = All-append _ s.continuities (linked ∷ []) m.each (h, tt);
      apart_before =
          Apart-append (λ (c : Continuity). c.before.id) linked s.continuities
            ((not-Any (λ (c : Continuity). c.before.id ≡ old.id) s.continuities).0
              (λ taken. ground (arith, (m.befores old.id).1 taken, free_before)))
            m.apart_before;
      apart_after =
          Apart-append (λ (c : Continuity). c.after.id) linked s.continuities
            ((not-Any (λ (c : Continuity). c.after.id ≡ new.id) s.continuities).0
              (λ taken. ground (arith, (m.afters new.id).1 taken, free_after)))
            m.apart_after;
    }

    pair_step : (rank : ℕ) → IsMatching (pair before after s (rank, (old.id, (new.id, how))))
    unfolding pair
    pair_step rank = elim (Bool-cases (contains s.paired_before old.id)) [
      | inl taken ↦ rw (pair, taken) m
      | inr free_before ↦ elim (Bool-cases (contains s.paired_after new.id)) [
        | inl taken ↦ rw (pair, free_before, taken) m
        | inr free_after ↦
            rw (pair, free_before, free_after, h.was, h.is)
              (grown-IsMatching free_before free_after)
      ]
    ]

  pub pair_all-IsMatching :
      (s : Pairs) (cs : List Candidate)
      → All IsFair cs
      → IsMatching s
      → IsMatching (pair_all before after s cs)
  unfolding pair_all
  pair_all-IsMatching s [] fair m = m
  pair_all-IsMatching s (c ∷ cs) fair m =
      let f = fair.0 in
      pair_all-IsMatching (pair before after s c) cs fair.1 (
        subst (λ c. IsMatching (pair before after s c)) (sym f.named)
          (pair_step f.old f.new f.how f.continued s m c.0))

  candidates_for-IsFair :
      (old : Symbol) (added : List Symbol)
      → get before old.id ≡ some old
      → get after old.id ≡ none
      → All (λ (new : Symbol). (get after new.id ≡ some new) × (get before new.id ≡ none)) added
      → All IsFair (candidates_for is_alphanumeric old added)
  unfolding candidates_for
  candidates_for-IsFair old [] was gone h = tt
  candidates_for-IsFair old (new ∷ added) was gone h =
      elim (Option-cases (continuation_between is_alphanumeric old new)) [
        | inl apart ↦ rw (candidates_for, apart) (candidates_for-IsFair old added was gone h.1)
        | inr (how, evidence) ↦
            rw (candidates_for, evidence)
              (
                record {
                  old = old;
                  new = new;
                  how = how;
                  named = refl;
                  continued = record {
                    was = was;
                    gone = gone;
                    is = h.0.0;
                    fresh = h.0.1;
                    evidence = evidence;
                  };
                },
                candidates_for-IsFair old added was gone h.1,
              )
      ]

  pub candidates-IsFair :
      (removed added : List Symbol)
      → All (λ (old : Symbol). (get before old.id ≡ some old) × (get after old.id ≡ none)) removed
      → All (λ (new : Symbol). (get after new.id ≡ some new) × (get before new.id ≡ none)) added
      → All IsFair (candidates is_alphanumeric removed added)
  unfolding candidates
  candidates-IsFair [] added h k = tt
  candidates-IsFair (old ∷ removed) added h k =
      All-append IsFair (candidates_for is_alphanumeric old added) _
        (candidates_for-IsFair old added h.0.0 h.0.1 k) (candidates-IsFair removed added h.1 k)
