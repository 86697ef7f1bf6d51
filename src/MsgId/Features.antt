-- ===== src/MsgId/Features.antt =====
-- The id of an acknowledgment, made from the id that it answers.
use mach_ipc.Base.{ℕ, ◌+◌, ◌-◌, ◌*◌, ◌^◌, ◌<◌, ◌≡◌, refl, true, false, arith}
use mach_ipc.MsgId.{
  feature_itrn, feature_wack, feature_iack, feature_lpcy, is_this_protocol_msg, has_feature,
  ack_msg_id, unset_feature, user_msg_type, set_feature, msg_id_connect, is_internal_msg,
  is_internal_msg_type, msg_type_connect, internal_msg_id,
}
use mach_ipc.MsgId.Fields.{
  bit, is_this_protocol_msg_iff, has_feature_iff, user_msg_type_lem, set_feature_lem,
  unset_wack_lem, unset_lpcy_lem,
}

ack_msg_id_parts :
    (id : ℕ) → id < 2 ^ 32 → ack_msg_id id ≡ id - bit 9 id * 2 ^ 9 + (1 - bit 10 id) * 2 ^ 10
unfolding ack_msg_id
ack_msg_id_parts id h =
    omega (arith, unset_wack_lem id h, set_feature_lem 10 (unset_feature id (2 ^ 9)))

pub ack_msg_id-lt : (id : ℕ) → id < 2 ^ 32 → ack_msg_id id < 2 ^ 32
ack_msg_id-lt id h = omega (arith, ack_msg_id_parts id h)

-- The id of an acknowledgment has IACK and not WACK, and is otherwise the id that it answers:
-- the same magic, ITRN, LPCY and type.
pub ack_msg_id_lem :
    (id : ℕ)
    → id < 2 ^ 32
    → (has_feature feature_iack (ack_msg_id id) ≡ true)
      × (has_feature feature_wack (ack_msg_id id) ≡ false)
      × (has_feature feature_itrn (ack_msg_id id) ≡ has_feature feature_itrn id)
      × (has_feature feature_lpcy (ack_msg_id id) ≡ has_feature feature_lpcy id)
      × (is_this_protocol_msg (ack_msg_id id) ≡ is_this_protocol_msg id)
      × (user_msg_type (ack_msg_id id) ≡ user_msg_type id)
ack_msg_id_lem id h = ground (
  arith,
  ack_msg_id_parts id h,
  has_feature_iff 10 (ack_msg_id id),
  has_feature_iff 9 (ack_msg_id id),
  has_feature_iff 8 (ack_msg_id id),
  has_feature_iff 8 id,
  has_feature_iff 11 (ack_msg_id id),
  has_feature_iff 11 id,
  is_this_protocol_msg_iff (ack_msg_id id),
  is_this_protocol_msg_iff id,
  user_msg_type_lem (ack_msg_id id),
  user_msg_type_lem id,
)

-- Clearing LPCY leaves the type and the features for acknowledgments alone.
pub unset_lpcy_features :
    (id : ℕ)
    → id < 2 ^ 32
    → (has_feature feature_lpcy (unset_feature id feature_lpcy) ≡ false)
      × (has_feature feature_wack (unset_feature id feature_lpcy) ≡ has_feature feature_wack id)
      × (has_feature feature_iack (unset_feature id feature_lpcy) ≡ has_feature feature_iack id)
      × (user_msg_type (unset_feature id feature_lpcy) ≡ user_msg_type id)
unset_lpcy_features id h = ground (
  arith,
  unset_lpcy_lem id h,
  has_feature_iff 9 (unset_feature id (2 ^ 11)),
  has_feature_iff 10 (unset_feature id (2 ^ 11)),
  has_feature_iff 11 (unset_feature id (2 ^ 11)),
  has_feature_iff 9 id,
  has_feature_iff 10 id,
  user_msg_type_lem (unset_feature id (2 ^ 11)),
  user_msg_type_lem id,
)

-- The id under which a client asks for a connection.
pub connect_request_id :
    let id = set_feature msg_id_connect feature_wack in
    (id < 2 ^ 32) × (is_internal_msg id ≡ true) × (is_internal_msg_type id msg_type_connect ≡ true)
unfolding set_feature msg_id_connect internal_msg_id is_internal_msg is_internal_msg_type
connect_request_id = (omega arith, refl, refl)
