-- ===== src/MsgId.antt =====
-- include/mach_ipc.h, the message id macros. An id is its 32-bit pattern. In C the masks are
-- `unsigned long`: a negative `mach_msg_id_t` is sign-extended before the mask is applied, but every
-- mask here is below 2 ^ 32, and so is what a store into the id keeps.
pub mod Fields
pub mod Classify
pub mod Features
mod Tests
use mach_ipc.Base.{ℕ, ◌-◌, ◌*◌, ◌^◌, Bool, not, bit_and, bit_or, ◌==◌}

-- INTERNAL_MSG_MAGIC, INTERNAL_MSG_TYPE_MASK
abbrev pub msg_magic : ℕ
msg_magic = 0x875 * 2 ^ 20

abbrev pub msg_type_mask : ℕ
msg_type_mask = 0xff

-- INTERNAL_FEATURE_ITRN, INTERNAL_FEATURE_WACK, INTERNAL_FEATURE_IACK, INTERNAL_FEATURE_LPCY
abbrev pub feature_itrn : ℕ
feature_itrn = 2 ^ 8

abbrev pub feature_wack : ℕ
feature_wack = 2 ^ 9

abbrev pub feature_iack : ℕ
feature_iack = 2 ^ 10

abbrev pub feature_lpcy : ℕ
feature_lpcy = 2 ^ 11

-- IS_THIS_PROTOCOL_MSG
unfoldable pub is_this_protocol_msg : ℕ → Bool
is_this_protocol_msg id = bit_and id (0xfff * 2 ^ 20) == msg_magic

-- HAS_FEATURE_ITRN, HAS_FEATURE_WACK, HAS_FEATURE_IACK, HAS_FEATURE_LPCY
unfoldable pub has_feature : ℕ → ℕ → Bool
has_feature feat id = not (bit_and id feat == 0)

-- IS_INTERNAL_MSG_TYPE and IS_EXTERNAL_MSG_TYPE
unfoldable pub is_internal_msg_type : ℕ → ℕ → Bool
is_internal_msg_type id type =
    bit_and id (bit_or 0xfff000ff feature_itrn) == bit_or (bit_or msg_magic feature_itrn) type

pub is_external_msg_type : ℕ → ℕ → Bool
is_external_msg_type id type = bit_and id (bit_or 0xfff000ff feature_itrn) == bit_or msg_magic type

-- IS_INTERNAL_MSG and IS_EXTERNAL_MSG
unfoldable pub is_internal_msg : ℕ → Bool
is_internal_msg id = bit_and id (bit_or 0xfff00000 feature_itrn) == bit_or msg_magic feature_itrn

pub is_external_msg : ℕ → Bool
is_external_msg id = bit_and id (bit_or 0xfff00000 feature_itrn) == msg_magic

-- SET_FEATURE and UNSET_FEATURE
unfoldable pub set_feature : ℕ → ℕ → ℕ
set_feature id feat = bit_or id feat

unfoldable pub unset_feature : ℕ → ℕ → ℕ
unset_feature id feat = bit_and id (2 ^ 32 - 1 - feat)

-- INTERNAL_MSG_ID and EXTERNAL_MSG_ID
unfoldable pub internal_msg_id : ℕ → ℕ
internal_msg_id type = bit_or (bit_or msg_magic feature_itrn) type

pub external_msg_id : ℕ → ℕ
external_msg_id type = bit_or msg_magic type

abbrev pub msg_type_connect : ℕ
msg_type_connect = 1

-- MSG_ID_CONNECT and MSG_ID_USER
unfoldable pub msg_id_connect : ℕ
msg_id_connect = internal_msg_id msg_type_connect

pub msg_id_user : ℕ → ℕ
msg_id_user type = external_msg_id type

-- `id & INTERNAL_MSG_TYPE_MASK`, as the two message handlers compute it.
pub user_msg_type : ℕ → ℕ
user_msg_type id = bit_and id msg_type_mask

-- The id of an acknowledgment, as `protocol_send_ack` makes it from the id that it answers.
unfoldable pub ack_msg_id : ℕ → ℕ
ack_msg_id original_msg_id = set_feature (unset_feature original_msg_id feature_wack) feature_iack
