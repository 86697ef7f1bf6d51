-- ===== src/Status/Tests.antt =====
-- Status strings at concrete codes.
use mach_ipc.Base.{◌≡◌, refl, none, some, pos, negsuc}
use mach_ipc.Status.{ipc_status_string, echo_status_string, stress_status_string}

timeout_text : ipc_status_string none (negsuc 3) ≡ "Timeout"
unfolding ipc_status_string
timeout_text = refl

-- The two examples give the same code different texts.
echo_text : ipc_status_string (some echo_status_string) (pos 1001) ≡ "Custom Echo Status"
unfolding ipc_status_string echo_status_string
echo_text = refl

stress_text : ipc_status_string (some stress_status_string) (pos 1001) ≡ "Ping successful"
unfolding ipc_status_string stress_status_string
stress_text = refl

unknown_text : ipc_status_string (some stress_status_string) (pos 1006) ≡ "Unknown user error"
unfolding ipc_status_string stress_status_string
unknown_text = refl
