-- ===== src/MsgId/Fields.antt =====
-- The macros of include/mach_ipc.h as arithmetic on the fields of an id: magic, features and type.
use mach_ipc.Base.{
  ℕ, ◌+◌, ◌-◌, ◌*◌, ◌/◌, ◌%◌, ◌^◌, ◌<◌, ◌≡◌, ◌↔◌, ◌⊎◌, inl, inr, ◌∙◌, ap, bit_and, bit_or, true,
  arith,
}
use native.Mathlib.Nat.{one-le-pow, div_self, mod_self, mod-add-div', div-eq_of_lt, mod-eq_of_lt}
use mach_ipc.Base.Bits.{
  bit_and_split, bit_or_split, bit_and-zero, bit_or-zero, bit_and-one, bit_or-one, bit_and_ones,
  zero-bit_or,
}
use mach_ipc.MsgId.{
  msg_magic, is_this_protocol_msg, has_feature, is_internal_msg, is_external_msg, set_feature,
  unset_feature, external_msg_id, user_msg_type,
}

-- The magic number, bits 20 to 31.
abbrev pub magic : ℕ → ℕ
magic id = id / 2 ^ 20 % 2 ^ 12

-- Bit `k`: 8 for ITRN, 9 for WACK, 10 for IACK, 11 for LPCY.
abbrev pub bit : ℕ → ℕ → ℕ
bit k id = id / 2 ^ k % 2

and_magic : (id : ℕ) → bit_and id (0xfff * 2 ^ 20) ≡ magic id * 2 ^ 20
and_magic id = omega (
  arith,
  bit_and_split 20 id (0xfff * 2 ^ 20),
  bit_and_ones 12 (id / 2 ^ 20),
  bit_and-zero (id % 2 ^ 20),
)

bit-cases : (k id : ℕ) → (bit k id ≡ 0) ⊎ (bit k id ≡ 1)
bit-cases k id = omega arith

-- A mask of one bit.
pub and_bit : (k id : ℕ) → bit_and id (2 ^ k) ≡ bit k id * 2 ^ k
and_bit k id =
    bit_and_split k id (2 ^ k)
    ∙ rw (div_self (one-le-pow k 2 (omega arith)), mod_self, bit_and-one, bit_and-zero)
        (omega arith)

or_bit_parts : (q r p : ℕ) → (q / 2 * 2 + 1) * p + r ≡ (r + q * p) + (1 - q % 2) * p
or_bit_parts q r p = elim (parity q) [
  | inl e ↦ rw e (omega (arith, ap (λ (t : ℕ). t * p) (even_half q e)))
  | inr e ↦ rw e (omega (arith, ap (λ (t : ℕ). t * p) (odd_half q e)))
]
  where
    parity : (q : ℕ) → (q % 2 ≡ 0) ⊎ (q % 2 ≡ 1)
    parity q = omega arith

    even_half : (q : ℕ) → q % 2 ≡ 0 → q ≡ q / 2 * 2
    even_half q e = omega arith

    odd_half : (q : ℕ) → q % 2 ≡ 1 → q ≡ q / 2 * 2 + 1
    odd_half q e = omega arith

-- Setting a bit adds it where it is not set.
pub or_bit : (k id : ℕ) → bit_or id (2 ^ k) ≡ id + (1 - bit k id) * 2 ^ k
or_bit k id =
    bit_or_split k id (2 ^ k)
    ∙ rw (div_self (one-le-pow k 2 (omega arith)), mod_self, bit_or-one, bit_or-zero)
        (omega (arith, or_bit_parts (id / 2 ^ k) (id % 2 ^ k) (2 ^ k), mod-add-div' id (2 ^ k)))

and_magic_itrn : (id : ℕ) → bit_and id 0xfff00100 ≡ magic id * 2 ^ 20 + bit 8 id * 2 ^ 8
and_magic_itrn id = omega (
  arith,
  bit_and_split 20 id 0xfff00100,
  bit_and_ones 12 (id / 2 ^ 20),
  bit_and_split 8 (id % 2 ^ 20) 0x100,
  bit_and-one (id % 2 ^ 20 / 2 ^ 8),
  bit_and-zero (id % 2 ^ 20 % 2 ^ 8),
)

and_magic_itrn_type : (id : ℕ) → bit_and id 0xfff001ff ≡ magic id * 2 ^ 20 + id % 2 ^ 9
and_magic_itrn_type id = omega (
  arith,
  bit_and_split 20 id 0xfff001ff,
  bit_and_ones 12 (id / 2 ^ 20),
  bit_and_ones 9 (id % 2 ^ 20),
)

unset_wack_parts : (id : ℕ) → id < 2 ^ 32 → bit_and id (2 ^ 32 - 1 - 2 ^ 9) ≡ id - bit 9 id * 2 ^ 9
unset_wack_parts id h = omega (
  arith,
  bit_and_split 10 id (2 ^ 32 - 1 - 2 ^ 9),
  bit_and_ones 22 (id / 2 ^ 10),
  bit_and_ones 9 (id % 2 ^ 10),
)

unset_lpcy_parts :
    (id : ℕ) → id < 2 ^ 32 → bit_and id (2 ^ 32 - 1 - 2 ^ 11) ≡ id - bit 11 id * 2 ^ 11
unset_lpcy_parts id h = omega (
  arith,
  bit_and_split 12 id (2 ^ 32 - 1 - 2 ^ 11),
  bit_and_ones 20 (id / 2 ^ 12),
  bit_and_ones 11 (id % 2 ^ 12),
)

-- The tests, read as arithmetic.
pub is_this_protocol_msg_iff : (id : ℕ) → (is_this_protocol_msg id ≡ true) ↔ (magic id ≡ 0x875)
unfolding is_this_protocol_msg
is_this_protocol_msg_iff id = ground (arith, and_magic id)

pub has_feature_iff : (k id : ℕ) → (has_feature (2 ^ k) id ≡ true) ↔ (bit k id ≡ 1)
unfolding has_feature
has_feature_iff k id = elim (bit-cases k id) [
  | inl e ↦ ground (arith, and_bit k id, ap (λ (t : ℕ). t * 2 ^ k) e, one-le-pow k 2)
  | inr e ↦ ground (arith, and_bit k id, ap (λ (t : ℕ). t * 2 ^ k) e, one-le-pow k 2)
]

pub is_internal_msg_iff :
    (id : ℕ) → (is_internal_msg id ≡ true) ↔ ((magic id ≡ 0x875) × (bit 8 id ≡ 1))
unfolding is_internal_msg
is_internal_msg_iff id = ground (arith, and_magic_itrn id)

pub is_external_msg_iff :
    (id : ℕ) → (is_external_msg id ≡ true) ↔ ((magic id ≡ 0x875) × (bit 8 id ≡ 0))
unfolding is_external_msg
is_external_msg_iff id = ground (arith, and_magic_itrn id)

pub user_msg_type_lem : (id : ℕ) → user_msg_type id ≡ id % 2 ^ 8
unfolding user_msg_type
user_msg_type_lem id = bit_and_ones 8 id

pub unset_wack_lem : (id : ℕ) → id < 2 ^ 32 → unset_feature id (2 ^ 9) ≡ id - bit 9 id * 2 ^ 9
unfolding unset_feature
unset_wack_lem = unset_wack_parts

pub unset_lpcy_lem : (id : ℕ) → id < 2 ^ 32 → unset_feature id (2 ^ 11) ≡ id - bit 11 id * 2 ^ 11
unfolding unset_feature
unset_lpcy_lem = unset_lpcy_parts

pub set_feature_lem : (k id : ℕ) → set_feature id (2 ^ k) ≡ id + (1 - bit k id) * 2 ^ k
unfolding set_feature
set_feature_lem = or_bit

-- A type below 2 ^ 20 does not reach the magic number; above its low byte lie the features.

-- The bits of a type from 20 on fall into the magic number.
pub external_msg_id_split :
    (t : ℕ) → external_msg_id t ≡ bit_or 0x875 (t / 2 ^ 20) * 2 ^ 20 + t % 2 ^ 20
unfolding external_msg_id
external_msg_id_split t =
    bit_or_split 20 msg_magic t
    ∙ ap (λ x. bit_or 0x875 (t / 2 ^ 20) * 2 ^ 20 + x) (zero-bit_or (t % 2 ^ 20))

pub external_msg_id_lem : (t : ℕ) → t < 2 ^ 20 → external_msg_id t ≡ msg_magic + t
unfolding external_msg_id
external_msg_id_lem t h =
    bit_or_split 20 msg_magic t ∙ rw (div-eq_of_lt h, mod-eq_of_lt h) (omega (arith, zero-bit_or t))
