-- ===== src/Audit/Ids/Canonical.antt =====
-- crates/openinvar-core/src/audit/mod.rs: what the id of a finding depends on, and its form.
use open_invar.Prelude.{
  ℕ, zero, suc, ◌+◌, ◌≡◌, refl, ◌↔◌, List, ◌++◌, length, length-append, Text, bytes, In, dedup-sort,
  dedup, sort, ◌/◌, nat_ord, list_ord, arith,
}
use open_invar.Audit.Ids.{finding_id, hex, write, write_subjects, offset_basis}

one_more : {a b c : ℕ} → a ≡ c → b ≡ a + 1 → b ≡ suc c
one_more h k = omega arith

nine_more : (d : ℕ) {a b c : ℕ} → a ≡ 8 → b ≡ d + 1 → c ≡ b + a → c ≡ d + 9
nine_more d h k l = omega arith

length-hex : (digits n : ℕ) → length (hex digits n) ≡ digits
unfolding hex
length-hex zero n = refl
length-hex (suc digits) n =
    one_more (length-hex digits (n / 16)) (length-append (hex digits (n / 16)) _)

length-id :
    (detector : Text) (n : ℕ) → length (detector ++ bytes "-" ++ hex 8 n) ≡ length detector + 9
length-id detector n =
    nine_more (length detector) (length-hex 8 n) (length-append detector (bytes "-"))
      (length-append (detector ++ bytes "-") (hex 8 n))

-- Two findings of one detector about the same subjects have the same id, in whatever order and however
-- often the subjects are named, and the id is nine bytes longer than the name of the detector.
pub finding_id-same :
    (detector : Text) (xs ys : List Text)
    → ((subject : Text) → In subject xs ↔ In subject ys)
    → (finding_id detector xs ≡ finding_id detector ys)
      × (length (finding_id detector xs) ≡ length detector + 9)
unfolding finding_id
finding_id-same detector xs ys same = (
  rw (dedup-sort xs ys same) refl,
  length-id detector (write_subjects (write offset_basis detector) (dedup (sort xs))),
)
