-- ===== src/Protocol/Types.antt =====
-- src/internal.h: the structures of a message, and the return codes of the kernel that the program
-- tells apart.
use mach_ipc.Base.{pos, negsuc, ℕ, Bool, ℤ}
use mach_ipc.Deadline.{Timespec}

-- `kern_return_t`: KERN_SUCCESS, KERN_INVALID_ARGUMENT, KERN_FAILURE, KERN_OPERATION_TIMED_OUT,
-- MACH_RCV_TIMED_OUT, and all else.
pub data KernReturn : Type 0 where
  success invalid_argument failure timed_out rcv_timed_out : KernReturn
  other : ℕ → KernReturn

abbrev pub is_success : KernReturn → Bool
is_success success = Bool.true
is_success _ = Bool.false

-- MACH_PORT_NULL
abbrev pub port_null : ℕ
port_null = 0

-- `internal_payload_t`
pub record Payload : Type 0 where
  pub client_id : ℕ
  pub client_slot : ℤ
  pub correlation_id : ℕ
  pub correlation_slot : ℤ
  pub status : ℤ
  pub user_payload_deadline : Timespec

-- Its size: 4 + 4 + 8 + 4 + 4 + 16 bytes.
abbrev pub sizeof_payload : ℕ
sizeof_payload = 40

-- An address with the size of what lies there. NULL is 0.
pub record Buffer : Type 0 where
  pub address : ℕ
  pub size : ℕ

-- How the kernel is to transfer a port right in the header.
pub data Disposition : Type 0 where
  nothing copy_send move_send : Disposition

-- `internal_mach_msg_t`. The first descriptor carries the contents of a payload, the second names
-- the user's data. The copy and type fields of the descriptors are the same in every message.
pub record Message : Type 0 where
  pub is_complex : Bool
  pub remote_disposition : Disposition
  pub local_disposition : Disposition
  pub remote_port : ℕ
  pub local_port : ℕ
  pub id : ℕ
  pub descriptor_count : ℕ
  pub payload : Payload
  pub payload_size : ℕ
  pub user_payload : Buffer

-- `ipc_status_t`, as far as the modelled functions set it themselves.
abbrev pub ipc_success : ℤ
ipc_success = pos 0

abbrev pub ipc_error_invalid_param : ℤ
ipc_error_invalid_param = negsuc 0

abbrev pub ipc_error_no_memory : ℤ
ipc_error_no_memory = negsuc 1

abbrev pub ipc_error_not_connected : ℤ
ipc_error_not_connected = negsuc 2

abbrev pub ipc_error_timeout : ℤ
ipc_error_timeout = negsuc 3

abbrev pub ipc_error_send_failed : ℤ
ipc_error_send_failed = negsuc 4

abbrev pub ipc_error_internal : ℤ
ipc_error_internal = negsuc 5

abbrev pub ipc_error_client_full : ℤ
ipc_error_client_full = negsuc 6
