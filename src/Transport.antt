-- ===== src/Transport.antt =====
-- The transport structure (luarpc_rpc.h) and its creation (luarpc.c).
use luarpc.Base.{ℕ, ℤ, pos, Bool, false, Option, none}

pub record Timeval : Type 0 where
  pub sec : ℤ
  pub usec : ℤ

-- `fd` is `none` for INVALID_TRANSPORT, and `file` says whether the FILE pointer is set.
pub record Transport : Type 0 where
  pub fd : Option ℕ
  pub tmr_id : ℕ
  pub loc_little : Bool
  pub loc_intnum : Bool
  pub net_little : Bool
  pub net_intnum : Bool
  pub lnum_bytes : ℕ
  pub file : Bool
  pub is_set : Bool
  pub must_die : Bool
  pub wait_timeout : Timeval
  pub com_timeout : Timeval
  pub timeout : Timeval

abbrev pub seconds : ℕ → Timeval
seconds n = record { sec = pos n; usec = pos 0 }

-- `malloc`, `memset` to zero, and the three assignments.
abbrev pub transport_create : Transport
transport_create = record {
  fd = none;
  tmr_id = 0;
  loc_little = false;
  loc_intnum = false;
  net_little = false;
  net_intnum = false;
  lnum_bytes = 0;
  file = false;
  is_set = false;
  must_die = false;
  wait_timeout = seconds 3;
  com_timeout = seconds 1;
  timeout = seconds 0;
}
