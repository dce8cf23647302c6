-- ===== src/Lib.antt =====
-- Lua-RPC: remote procedure calls between Lua interpreters, over a transport of bytes.
--
-- A client holds a transport and helper objects, chains of names such as `handle.a.b`; a server
-- answers commands on the transports that it has accepted. Both run the same module. The client
-- sends a command byte, waits for RPC_READY, sends the dotted name and the arguments, and reads
-- the results; the server looks the name up from its globals, calls, reads or assigns, and
-- answers. The modules here follow that division:
--
--   Errors, Codes      luarpc_rpc.h and the enumerations of luarpc_protocol.c: error numbers,
--                      exceptions, tags, commands
--   Transport          struct _Transport, and `transport_create` of luarpc.c
--   Machine            what the C implementation fixes: byte order, signedness of `char`, the
--                      type lua_Number
--   Lua                what the module uses of the Lua API; a parameter of the model
--   State              the state of a run, its outcomes (Try, Catch and Throw of cexcept.h), and
--                      the contract of `transport_read_buffer` and `transport_write_buffer`
--   Wire               luarpc_protocol.c: strings, bytes, words, numbers, `swap_bytes`
--   Negotiate          luarpc_protocol.c: `client_negotiate` and `server_negotiate`
--   Helper             luarpc_protocol.c: `helper_remote_index`
--   Variable           luarpc_protocol.c: `write_variable`, `read_variable` and what they call
--   ErrorHandler       `deal_with_error`, `check_num_args` (luarpc_protocol.c), `rpc_on_error`
--                      (luarpc.c)
--   Server             luarpc_protocol.c: the three commands and `rpc_dispatch_worker`
--   Client             luarpc_protocol.c: helpers and the requests of the client
--   Socket             luarpc_socket.c: the loops of `transport_read_buffer` and
--                      `transport_write_buffer` over `fread`, `fwrite` and `select`; opening,
--                      connecting, accepting and closing; Socket/Windows has the WIN32 branch, the
--                      loops over `ReadFile` and `WriteFile`, `transport_strerror`, and
--                      `net_startup` of luarpc.c
--   Nodes              luarpc.c: the list of transports, a ring of doubly linked nodes
--   Serial             luarpc_serial.c over the interface of serial.h, and that interface by
--                      POSIX calls (serial_posix.c) and by Windows calls (serial_win32.c)
--   Process            luarpc.c and luarpc_socket.c: the server process, `rpc_server` with
--                      its arguments,
--                      `rpc_dispatch_accept`, `transport_select` and `transport_delete`
--   Functions          luarpc.c: `rpc_client`, `rpc_close`, `rpc_wait_timeout`, `rpc_com_timeout`
--                      and what they call in luarpc_protocol.c and luarpc_socket.c
--   Exchange           a client and a server, each given what the other one writes;
--                      Exchange/Session begins with the handshake
--   Registration       luarpc.c: the tables of functions and `luaopen_rpc`
--   Examples           a concrete interpreter, two machines and a link
--   Witnesses          the theorems at concrete inputs
--
-- An operation is a function from a state to an outcome: a result and a state, an exception of
-- the module with the state it was thrown in, a Lua error, undefined behaviour of C, or the end
-- of the fuel. The bytes that the peer will send are a list in the state, and so are those that
-- were written; the standard library's buffers and the time at which bytes travel are not seen,
-- and the two streams of an exchange are compared as wholes. A helper is a term, since parent
-- pointers are never reassigned. A lua_Number is its bytes in memory.
--
-- Fuel: `read_value` gives `read_variable` one unit for each byte to come and one more. For
-- `write_variable` the fuel stands for the depth that the C stack serves, since a table may hold
-- itself; more than the size of the tree that a value holds is enough. In a process the end of this fuel is the end
-- of the C stack, which is undefined.
-- The loops of Socket take a unit of fuel for each round; one for each byte and for each time that
-- `select` reports a descriptor on which nothing moves is enough. On Windows a read needs one for each
-- byte where no call is pending, and may otherwise go on for ever. Removal from the list of
-- transports needs a unit for each node and one more.
--
-- The read loop of Serial has a unit for each byte asked for, which is enough; its waits
-- for a client are bounded by their fuel alone. In Process one bound stands for the rounds of every
-- loop over the ring, and a unit more than there are transports is enough; the rounds of `rpc_server`
-- itself, which has no end of its own, are counted apart.
--
-- Not modelled: pstdint.h and cexcept.h, which are third-party headers, the tables of `luaopen_rpc` for
-- eLua, which name a function that is not defined, `write_function` for eLua's cross compiler, the limit
-- of the Lua stack, which is taken to be large enough, and the Lua scripts.
pub mod Base
pub mod Errors
pub mod Transport
pub mod Machine
pub mod Lua
pub mod State
pub mod Codes
pub mod Wire
pub mod Negotiate
pub mod Helper
pub mod Variable
pub mod ErrorHandler
pub mod Server
pub mod Client
pub mod Socket
pub mod Serial
pub mod Nodes
pub mod Process
pub mod Functions
pub mod Exchange
pub mod Registration
pub mod Examples
pub mod Witnesses
