-- ===== src/Status.antt =====
-- The kernel's status codes (freestanding/common/ktypes.h) and their texts
-- (freestanding/string/string.c, StatusCodeToString).
use Prim.Native.String.{String}

-- `enum Status`.
pub data Status : Type 0 where
  ok bad out_of_memory bad_argument retry unsupported : Status
  not_found out_of_bounds timeout no_endpoint bad_syscall msgqueue_full : Status

pub Status-discrete : Discrete Status
Status-discrete = hlevel

-- `StatusCodeToString`. STATUS_NOT_FOUND, STATUS_OUT_OF_BOUNDS and STATUS_MSGQUEUE_FULL have no case
-- and take the default.
pub status_code_to_string : Status → String
status_code_to_string Status.ok = "Good Status"
status_code_to_string Status.bad = "Bad Status"
status_code_to_string Status.bad_argument = "Invalid argument supplied"
status_code_to_string Status.retry = "Operation must be repeated"
status_code_to_string Status.out_of_memory = "Kernel has ran out of memory"
status_code_to_string Status.unsupported = "Unsupported request"
status_code_to_string Status.timeout = "Resource not available at this time"
status_code_to_string Status.no_endpoint = "No endpoint for message"
status_code_to_string Status.bad_syscall = "Bad system call number given to kernel"
status_code_to_string _ = "Bad Code"
