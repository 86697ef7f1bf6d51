-- ===== src/MsgId/Tests.antt =====
-- Message ids at concrete types, and the lemmas about them applied.
use mach_ipc.Base.{◌≡◌, ◌↔◌, ◌/◌, ◌%◌, ◌^◌, bit_or, refl, true, not, ◌&&◌}
use mach_ipc.MsgId.{
  feature_itrn, feature_wack, feature_iack, is_this_protocol_msg, has_feature, is_internal_msg,
  is_external_msg, is_internal_msg_type, msg_id_user, msg_id_connect, user_msg_type,
  msg_type_connect, internal_msg_id, external_msg_id,
}
use mach_ipc.MsgId.Fields.{bit}
use mach_ipc.MsgId.Classify.{internal-external, msg_id_user_spills}

-- Type 257 of a user is the connection request.
msg_id_user-257 : msg_id_user 257 ≡ msg_id_connect
unfolding msg_id_user msg_id_connect internal_msg_id external_msg_id
msg_id_user-257 = refl

connect_is_internal : is_internal_msg_type msg_id_connect msg_type_connect ≡ true
unfolding is_internal_msg_type msg_id_connect internal_msg_id
connect_is_internal = refl

internal-external_example :
    (is_internal_msg 0x87500301
      ≡ (is_this_protocol_msg 0x87500301 && has_feature feature_itrn 0x87500301))
    × (is_external_msg 0x87500301
        ≡ (is_this_protocol_msg 0x87500301 && not (has_feature feature_itrn 0x87500301)))
internal-external_example = internal-external 0x87500301

msg_id_user_spills_example :
    ((is_external_msg (msg_id_user 1001) ≡ true)
      ↔ ((bit 8 1001 ≡ 0) × (bit_or 0x875 (1001 / 2 ^ 20) % 2 ^ 12 ≡ 0x875)))
    × ((has_feature feature_wack (msg_id_user 1001) ≡ true) ↔ (bit 9 1001 ≡ 1))
    × ((has_feature feature_iack (msg_id_user 1001) ≡ true) ↔ (bit 10 1001 ≡ 1))
    × (user_msg_type (msg_id_user 1001) ≡ 1001 % 2 ^ 8)
msg_id_user_spills_example = msg_id_user_spills 1001
