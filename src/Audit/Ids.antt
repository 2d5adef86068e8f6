-- ===== src/Audit/Ids.antt =====
-- crates/openinvar-core/src/audit/mod.rs: `FindingId` and the hash it is made with.
pub mod Canonical
use open_invar.Prelude.{
  ℕ, zero, suc, ◌+◌, ◌*◌, ◌/◌, ◌%◌, ◌^◌, ltb, if◌then◌else◌, List, [], ◌∷◌, ◌++◌, foldl, Text,
  bytes, dedup, sort, list_ord, nat_ord,
}

-- The exclusive or of two numbers of some bits.
unfoldable pub xor : ℕ → ℕ → ℕ → ℕ
xor zero a b = 0
xor (suc bits) a b = (a % 2 + b % 2) % 2 + 2 * xor bits (a / 2) (b / 2)

-- `Fnv1a(0x811c_9dc5)`
abbrev pub offset_basis : ℕ
offset_basis = 2166136261

-- `self.0 ^= byte; self.0 = self.0.wrapping_mul(0x0100_0193)`
unfoldable pub hash_byte : ℕ → ℕ → ℕ
unfolding xor
hash_byte hash byte = (xor 32 hash byte * 16777619) % 2 ^ 32

-- `Fnv1a::write`
unfoldable pub write : ℕ → Text → ℕ
unfolding hash_byte
write hash [] = hash
write hash (byte ∷ t) = write (hash_byte hash byte) t

-- `{:08x}`, for as many digits.
unfoldable pub hex : ℕ → ℕ → Text
hex zero n = []
hex (suc digits) n =
    hex digits (n / 16) ++ (let d = n % 16 in if ltb d 10 then 48 + d else 87 + d) ∷ []

-- The loop over the subjects: the separator `\x1f`, then the subject.
unfoldable pub write_subjects : ℕ → List Text → ℕ
unfolding write
write_subjects hash [] = hash
write_subjects hash (subject ∷ subjects) =
    write_subjects (write (write hash (31 ∷ [])) subject) subjects

-- `FindingId::new`; an id is its text.
unfoldable pub finding_id : Text → List Text → Text
unfolding write_subjects write hex
finding_id detector subjects =
    detector
    ++ bytes "-"
    ++ hex 8 (write_subjects (write offset_basis detector) (dedup (sort subjects)))
