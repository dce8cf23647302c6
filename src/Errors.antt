-- ===== src/Errors.antt =====
-- Exceptions and error numbers (luarpc_rpc.h, and `error_string` of luarpc_protocol.c).
use luarpc.Base.{ℕ, ◌-◌, ◌^◌, Bytes, codes, if◌then◌else◌, ◌==◌}

pub data ExceptionType : Type 0 where
  done nonfatal fatal : ExceptionType

pub record Exception : Type 0 where
  pub type : ExceptionType
  pub errnum : ℕ

abbrev pub exception : ExceptionType → ℕ → Exception
exception t n = record { type = t; errnum = n }

-- The largest `int`, for 32-bit `int`s: all ones, the sign bit shifted out.
abbrev maxint : ℕ
maxint = 2 ^ 31 - 1

abbrev err_eof : ℕ
err_eof = maxint - 100

abbrev pub err_closed : ℕ
err_closed = maxint - 101

abbrev pub err_protocol : ℕ
err_protocol = maxint - 102

abbrev pub err_nodata : ℕ
err_nodata = maxint - 103

abbrev pub err_command : ℕ
err_command = maxint - 106

abbrev pub err_header : ℕ
err_header = maxint - 107

abbrev pub err_longfname : ℕ
err_longfname = maxint - 108

abbrev pub err_timeout : ℕ
err_timeout = maxint - 109

-- The texts; `strerror` is the system's, for the numbers that are not the module's own.
unfoldable pub error_string : (strerror : ℕ → Bytes) → ℕ → Bytes
error_string strerror n =
    if n == err_eof
    then codes "connection closed unexpectedly"
    else if n == err_closed
    then codes "operation requested on closed transport"
    else if n == err_protocol
    then codes "error in the received protocol"
    else if n == err_command
    then codes "undefined command"
    else if n == err_nodata
    then codes "no data received when attempting to read"
    else if n == err_header
    then codes "header exchanged failed"
    else if n == err_longfname
    then codes "function name too long"
    else if n == err_timeout
    then codes "timeout"
    else strerror n
