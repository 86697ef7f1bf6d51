-- ===== src/MsgId/Classify.antt =====
-- How an id is classified, and what becomes of a user's message type.
use mach_ipc.Base.{ℕ, ◌/◌, ◌%◌, ◌^◌, ◌≡◌, ◌↔◌, true, not, ◌&&◌, bit_or, arith}
use mach_ipc.MsgId.{
  feature_itrn, feature_wack, feature_iack, is_this_protocol_msg, has_feature, is_internal_msg,
  is_external_msg, msg_id_user, external_msg_id, user_msg_type,
}
use mach_ipc.MsgId.Fields.{
  bit, is_this_protocol_msg_iff, has_feature_iff, is_internal_msg_iff, is_external_msg_iff,
  user_msg_type_lem, external_msg_id_split,
}

-- Among the ids of the protocol the tests for internal and external messages are complementary,
-- and ITRN decides between them; no other id passes either test.
pub internal-external :
    (id : ℕ)
    → (is_internal_msg id ≡ (is_this_protocol_msg id && has_feature feature_itrn id))
      × (is_external_msg id ≡ (is_this_protocol_msg id && not (has_feature feature_itrn id)))
internal-external id = ground (
  arith,
  is_this_protocol_msg_iff id,
  has_feature_iff 8 id,
  is_internal_msg_iff id,
  is_external_msg_iff id,
)

-- Any type that a user gives, also one that does not fit, spills into the features and into the magic
-- number: the message is external exactly if bit 8 of the type is clear and its bits from 20 on do not
-- change the magic number, carries WACK, so that it asks for an acknowledgment, exactly if bit 9 is set,
-- carries IACK, as an acknowledgment does, exactly if bit 10 is set, and the handler reads the type
-- modulo 256.
pub msg_id_user_spills :
    (t : ℕ)
    → ((is_external_msg (msg_id_user t) ≡ true)
        ↔ ((bit 8 t ≡ 0) × (bit_or 0x875 (t / 2 ^ 20) % 2 ^ 12 ≡ 0x875)))
      × ((has_feature feature_wack (msg_id_user t) ≡ true) ↔ (bit 9 t ≡ 1))
      × ((has_feature feature_iack (msg_id_user t) ≡ true) ↔ (bit 10 t ≡ 1))
      × (user_msg_type (msg_id_user t) ≡ t % 2 ^ 8)
unfolding msg_id_user
msg_id_user_spills t = ground (
  arith,
  external_msg_id_split t,
  is_external_msg_iff (external_msg_id t),
  has_feature_iff 9 (external_msg_id t),
  has_feature_iff 10 (external_msg_id t),
  user_msg_type_lem (external_msg_id t),
)
