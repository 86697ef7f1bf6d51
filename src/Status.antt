-- ===== src/Status.antt =====
-- The status strings of src/utils.c, and the user functions of src/examples/echo.c and
-- src/examples/stress_test.c that it can be given. A null string is `none`.
pub mod Laws
mod Tests
use Prim.Native.String.{String}
use mach_ipc.Base.{
  ℕ, zero, suc, Bool, false, Option, none, some, ℤ, pos, negsuc, leb, ◌==◌, if◌then◌else◌,
}

-- IPC_USER_BASE
abbrev pub ipc_user_base : ℕ
ipc_user_base = 1000

-- The switch over the library's own codes: 0, and from -1 down.
own_string : ℤ → String
own_string (pos n) = if n == 0 then "Success" else "Unknown error"
own_string (negsuc n) =
    if n == 0
    then "Invalid parameter"
    else if n == 1
    then "Out of memory"
    else if n == 2
    then "Not connected"
    else if n == 3
    then "Timeout"
    else if n == 4
    then "Send failed"
    else if n == 5
    then "Internal error"
    else if n == 6
    then "Client list full"
    else "Unknown error"

-- `st_str ? st_str : "Unknown user error"`
or_unknown : Option String → String
or_unknown none = "Unknown user error"
or_unknown (some s) = s

user_string : Option (ℤ → Option String) → ℤ → String
unfolding or_unknown
user_string none status = or_unknown none
user_string (some f) status = or_unknown (f status)

-- `status >= 1000`
abbrev pub is_user : ℤ → Bool
is_user (pos n) = leb ipc_user_base n
is_user (negsuc n) = false

-- The first argument is the global `user_ipc_status_string`, which starts as null and which
-- `set_user_ipc_status_string` replaces.
pub ipc_status_string : Option (ℤ → Option String) → ℤ → String
unfolding user_string own_string
ipc_status_string user status =
    if is_user status then user_string user status else own_string status

pub set_user_ipc_status_string :
    Option (ℤ → Option String) → Option (ℤ → Option String) → Option (ℤ → Option String)
set_user_ipc_status_string before user = user

-- ECHO_CUSTOM_STATUS
abbrev pub echo_custom_status : ℤ
echo_custom_status = pos 1001

pub echo_status_string : ℤ → Option String
echo_status_string (pos n) = if n == 1001 then some "Custom Echo Status" else none
echo_status_string (negsuc n) = none

abbrev pub stress_status_ping_ok : ℤ
stress_status_ping_ok = pos 1001

abbrev pub stress_status_heavy_ok : ℤ
stress_status_heavy_ok = pos 1002

abbrev pub stress_status_burst_ok : ℤ
stress_status_burst_ok = pos 1003

abbrev pub stress_status_timeout_ok : ℤ
stress_status_timeout_ok = pos 1004

abbrev pub stress_status_share_ok : ℤ
stress_status_share_ok = pos 1005

pub stress_status_string : ℤ → Option String
stress_status_string (pos n) =
    if n == 1001
    then some "Ping successful"
    else if n == 1002
    then some "Heavy payload processed"
    else if n == 1003
    then some "Burst complete"
    else if n == 1004
    then some "Timeout test passed"
    else if n == 1005
    then some "Shared memory processed"
    else none
stress_status_string (negsuc n) = none

-- `size ? malloc(size) : NULL`; `address` is what `malloc` returns.
pub ipc_alloc : (malloc : ℕ → Option ℕ) → (size : ℕ) → Option ℕ
ipc_alloc malloc size = if size == 0 then none else malloc size
