-- ===== src/Codes.antt =====
-- Type tags, commands and status codes of the protocol (luarpc_protocol.c, the enumerations).
use luarpc.Base.{ℕ}

abbrev pub rpc_nil : ℕ
rpc_nil = 0

abbrev pub rpc_number : ℕ
rpc_number = 1

abbrev pub rpc_boolean : ℕ
rpc_boolean = 2

abbrev pub rpc_string : ℕ
rpc_string = 3

abbrev pub rpc_table : ℕ
rpc_table = 4

abbrev pub rpc_table_end : ℕ
rpc_table_end = 5

abbrev pub rpc_function : ℕ
rpc_function = 6

abbrev pub rpc_function_end : ℕ
rpc_function_end = 7

abbrev pub rpc_remote : ℕ
rpc_remote = 8

abbrev pub rpc_cmd_call : ℕ
rpc_cmd_call = 1

abbrev pub rpc_cmd_get : ℕ
rpc_cmd_get = 2

abbrev pub rpc_cmd_con : ℕ
rpc_cmd_con = 3

abbrev pub rpc_cmd_newindex : ℕ
rpc_cmd_newindex = 4

abbrev pub rpc_ready : ℕ
rpc_ready = 64

abbrev pub rpc_unsupported_cmd : ℕ
rpc_unsupported_cmd = 65

abbrev rpc_done : ℕ
rpc_done = 66

abbrev pub rpc_protocol_version : ℕ
rpc_protocol_version = 3
