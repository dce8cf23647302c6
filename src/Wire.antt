-- ===== src/Wire.antt =====
-- Bytes, words and numbers on the wire (luarpc_protocol.c, transport layer generics).
pub mod Words
pub mod Swap
pub mod Laws
pub mod Framing
use luarpc.Base.{
  ℕ, zero, suc, ◌+◌, ◌-◌, ◌/◌, ◌%◌, ◌^◌, Bytes, Bool, [], ◌∷◌, length, get_or, set, take,
  if◌then◌else◌, ltb, leb, ◌==◌, ◌||◌, differ, Option, none, some,
}
use luarpc.Machine.{Machine}
use luarpc.Transport.{Transport}
use luarpc.State.{Cmd, pure, crash, ◌>>=◌, ◌>>◌, verify_open, read_buffer, write_buffer}
use Words.{le_bytes, of_le, native}

-- The loop of `swap_bytes`: `k` rounds are left, the next at index `i`.
unfoldable pub swap_loop : (numbersize : ℕ) → ℕ → ℕ → Bytes → Bytes
swap_loop n zero i b = b
swap_loop n (suc k) i b =
    let temp = get_or b i 0 in
    swap_loop n k (i + 1) (set (set b i (get_or b (n - 1 - i) 0)) (n - 1 - i) temp)

unfoldable pub swap_bytes : Bytes → ℕ → Bytes
unfolding swap_loop
swap_bytes b n = swap_loop n (n / 2) 0 b

-- `if( net_little != loc_little ) swap_bytes( b, n )`
abbrev pub order : Transport → Bytes → ℕ → Bytes
order t b n = if differ t.net_little t.loc_little then swap_bytes b n else b

module _ {G : Type 0} where
  -- A length of 2 ^ 31 or more is a negative `int`: the loop of the transport then reads nothing,
  -- and the caller uses bytes that were never set.
  unfoldable pub read_string : ℕ → Cmd G Bytes
  read_string n = if ltb n (2 ^ 31) then read_buffer n else crash

  -- With a negative length nothing is written.
  unfoldable pub write_string : Bytes → ℕ → Cmd G (Unit {0})
  write_string b n = write_buffer (if ltb n (2 ^ 31) then take n b else [])

  unfoldable pub read_uint8 : Cmd G ℕ
  read_uint8 = do verify_open; b ← read_buffer 1; pure (get_or b 0 0)

  unfoldable pub write_uint8 : ℕ → Cmd G (Unit {0})
  write_uint8 x = verify_open >> write_buffer (x ∷ [])

  module _ (m : Machine) where
    unfoldable pub read_uint32 : Cmd G ℕ
    read_uint32 s = (do verify_open; b ← read_buffer 4; pure (of_le (native m (order s.tpt b 4)))) s

    unfoldable pub write_uint32 : ℕ → Cmd G (Unit {0})
    write_uint32 x s = (do verify_open; write_buffer (order s.tpt (native m (le_bytes 4 x)) 4)) s

    -- The integer branch has cases for 1, 2, 4 and 8 bytes, and leaves the result unset
    -- otherwise; the other branch reads a whole lua_Number from a buffer of `lnum_bytes`.
    unfoldable pub read_number : Cmd G Bytes
    read_number s =
        (do
          verify_open
          b ← read_buffer s.tpt.lnum_bytes
          let n = s.tpt.lnum_bytes
          let x = order s.tpt b n
          if differ s.tpt.net_intnum s.tpt.loc_intnum
              then if (n == 1) || ((n == 2) || ((n == 4) || (n == 8)))
                then pure (m.of_int n x)
                else crash
              else if leb m.sizeof_number n
              then pure (take m.sizeof_number x)
              else crash)
          s

    -- In the other branch eight bytes are written, whatever `lnum_bytes` says; of a lua_Number of
    -- another size that reads or swaps what lies behind it.
    unfoldable pub write_number : Bytes → Cmd G (Unit {0})
    write_number x s =
        (do
          verify_open
          let n = s.tpt.lnum_bytes
          if s.tpt.net_intnum
              then if n == 1
                then write_buffer (m.to_int 1 x)
                else if (n == 2) || ((n == 4) || (n == 8))
                then write_buffer (order s.tpt (m.to_int n x) n)
                else pure tt
              else if length x == 8
              then write_buffer (order s.tpt x 8)
              else crash)
          s

-- The bytes that `write_number` sends for a number of eight bytes or as an integer, if it sends
-- all of them, and the number that `read_number` makes of the bytes sent.
abbrev pub number_wire : Machine → Transport → Bytes → Option Bytes
number_wire m t x =
    let n = t.lnum_bytes in
    if t.net_intnum
    then if n == 1
      then some (m.to_int 1 x)
      else if (n == 2) || ((n == 4) || (n == 8))
      then some (order t (m.to_int n x) n)
      else some []
    else if length x == 8
    then some (order t x 8)
    else none

abbrev pub wire_number : Machine → Transport → Bytes → Option Bytes
wire_number m t b =
    let n = t.lnum_bytes in
    let x = order t b n in
    if length b == n
    then if differ t.net_intnum t.loc_intnum
      then if (n == 1) || ((n == 2) || ((n == 4) || (n == 8))) then some (m.of_int n x) else none
      else if leb m.sizeof_number n
      then some (take m.sizeof_number x)
      else none
    else none
