-- ===== src/Prelude/Bytes.antt =====
-- Texts as lists of bytes, so that `Ord` on them is the byte order of Rust's `str`.
use Prim.Native.Nat.{ℕ, zero, suc, ◌+◌, ◌/◌, ◌%◌}
use Prim.Native.Nat.add
use mathlib.Core.Path.{◌≡◌, refl, ap, ◌∙◌}
use mathlib.Core.Logic.{◌≢◌}
use native.Mathlib.Omega.{arith}
use open_invar.Prelude.Lists.{length, length-append}
use open_invar.Prelude.Order.{eqb, eqb_iff, list_ord, nat_ord}
use Prim.Native.Char.{code}
use Prim.Native.String.{String}
use mathlib.Core.Bool.{Bool, true, false, ◌&&◌}
use mathlib.Core.Option.{Option, none, some}
use mathlib.Core.List.{List, [], ◌∷◌, ◌++◌}
use open_invar.Prelude.Tests.{if◌then◌else◌, ◌==◌, leb}

abbrev pub Text : Type 0
Text = List ℕ

-- The bytes of an ASCII literal.
abbrev pub bytes : String → Text
bytes String.[] = []
bytes (String.◌∷◌ c s) = code c ∷ bytes s

-- The decimal digits of `n`, put before `rest`; `fuel` is at least the number of digits.
decimal : ℕ → ℕ → Text → Text
decimal zero n rest = rest
decimal (suc fuel) n rest =
    let front = decimal fuel (n / 10) ((48 + n % 10) ∷ rest) in
    if n / 10 == 0 then (48 + n % 10) ∷ rest else front

-- `format!("{n}")`. A number has at most as many digits as one more than its value.
unfoldable pub display : ℕ → Text
unfolding decimal
display n = decimal (suc n) n []

-- `text.strip_prefix(prefix)`
abbrev pub strip_prefix : Text → Text → Option Text
strip_prefix text [] = some text
strip_prefix [] (p ∷ ps) = none
strip_prefix (c ∷ text) (p ∷ ps) = if c == p then strip_prefix text ps else none

-- `text.starts_with(prefix)`
abbrev pub starts_with : Text → Text → Bool
starts_with text prefix = elim (strip_prefix text prefix) [ none ↦ false | some r ↦ true ]

-- `text.strip_suffix(suffix)`
unfoldable pub strip_suffix : Text → Text → Option Text
strip_suffix [] s = if eqb {A = Text} [] s then some [] else none
strip_suffix (c ∷ text) s =
    let rest = strip_suffix text s in
    if eqb {A = Text} (c ∷ text) s
    then some []
    else elim rest [ none ↦ none | some t ↦ some (c ∷ t) ]

-- `text.find(pattern)`: where the pattern first occurs.
unfoldable pub find : Text → Text → Option ℕ
find [] p = if starts_with [] p then some 0 else none
find (c ∷ text) p =
    let rest = find text p in
    if starts_with (c ∷ text) p then some 0 else elim rest [ none ↦ none | some i ↦ some (suc i) ]

-- `text.rfind(pattern)`: where the pattern last occurs.
unfoldable pub rfind : Text → Text → Option ℕ
rfind [] p = if starts_with [] p then some 0 else none
rfind (c ∷ text) p = elim (rfind text p) [
  | some i ↦ some (suc i)
  | none ↦ if starts_with (c ∷ text) p then some 0 else none
]

-- What an expression does that may panic.
pub data Run {ℓ} (A : Type ℓ) : Type ℓ where
  returns : A → Run A
  panics : Run A

abbrev pub take {ℓ} : {A : Type ℓ} → ℕ → List A → List A
take zero t = []
take (suc n) [] = []
take (suc n) (c ∷ t) = c ∷ take n t

abbrev pub drop {ℓ} : {A : Type ℓ} → ℕ → List A → List A
drop zero t = t
drop (suc n) [] = []
drop (suc n) (c ∷ t) = drop n t

-- `&text[start..end]`: a slice that is out of order or out of range panics.
unfoldable pub slice : Text → ℕ → ℕ → Run Text
slice text start stop =
    if leb start stop && leb stop (length text)
    then returns (drop start (take stop text))
    else panics

pub take-append : (s t : Text) → take (length s) (s ++ t) ≡ s
take-append [] t = refl
take-append (c ∷ s) t = ap (λ r. c ∷ r) (take-append s t)

pub drop-append : (s t : Text) → drop (length s) (s ++ t) ≡ t
drop-append [] t = refl
drop-append (c ∷ s) t = drop-append s t

pub strip_prefix-append : (p t : Text) → strip_prefix (p ++ t) p ≡ some t
strip_prefix-append [] t = refl
strip_prefix-append (c ∷ p) t = ground (arith, strip_prefix-append p t)

pub starts_with-append : (p t : Text) → starts_with (p ++ t) p ≡ true
starts_with-append p t = ground (arith, strip_prefix-append p t)

cons_append-ne : (c : ℕ) (p s : Text) → c ∷ p ++ s ≢ s
cons_append-ne c p s e = omega (arith, ap length e, length-append p s)

pub strip_suffix-append : (p s : Text) → strip_suffix (p ++ s) s ≡ some p
unfolding strip_suffix
strip_suffix-append [] [] = rw ((eqb_iff {A = Text} [] []).1 refl) refl
strip_suffix-append [] (c ∷ s) = rw ((eqb_iff {A = Text} (c ∷ s) (c ∷ s)).1 refl) refl
strip_suffix-append (c ∷ p) s =
    ground (arith, eqb_iff {A = Text} (c ∷ p ++ s) s, cons_append-ne c p s, strip_suffix-append p s)

take_past : (a t : Text) (n m : ℕ) → m ≡ length a + n → take m (a ++ t) ≡ a ++ take n t
take_past [] t n m e = rw (e, add.zero) refl
take_past (c ∷ a) t n zero e = absurd (omega arith)
take_past (c ∷ a) t n (suc m) e = ap (λ r. c ∷ r) (take_past a t n m (omega arith))

pub drop_past : (a t : Text) (n m : ℕ) → m ≡ length a + n → drop m (a ++ t) ≡ drop n t
drop_past [] t n m e = rw (e, add.zero) refl
drop_past (c ∷ a) t n zero e = absurd (omega arith)
drop_past (c ∷ a) t n (suc m) e = drop_past a t n m (omega arith)

-- The slice of a text that is written as three parts is the middle one.
pub slice-middle :
    (a b c : Text) (start stop : ℕ)
    → start ≡ length a
    → stop ≡ length a + length b
    → slice (a ++ (b ++ c)) start stop ≡ returns b
unfolding slice
slice-middle a b c start stop e f =
    let whole : length (a ++ (b ++ c)) ≡ length a + (length b + length c) =
      length-append a (b ++ c) ∙ ap (λ n. length a + n) (length-append b c) in
    let fits : leb start stop && leb stop (length (a ++ (b ++ c))) ≡ true = ground arith in
    let cut : take stop (a ++ (b ++ c)) ≡ a ++ b =
      take_past a (b ++ c) (length b) stop f ∙ ap (λ t. a ++ t) (take-append b c) in
    rw (fits, cut, e, drop-append) refl
