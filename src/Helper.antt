-- ===== src/Helper.antt =====
-- Helper objects: their fields, and `helper_remote_index` of luarpc_protocol.c, which sends the
-- chain of names that a helper stands for.
pub mod Remote
use luarpc.Base.{
  ℕ, zero, suc, ◌+◌, ◌-◌, Bytes, Bool, Option, none, some, List, [], ◌∷◌, ◌++◌, length,
  if◌then◌else◌, ltb, ◌==◌,
}
use luarpc.Errors.{exception, fatal, err_closed}
use luarpc.Machine.{Machine}
use luarpc.Lua.{Helper, root, child}
use luarpc.State.{State, Sent, word, chars, Cmd, pure, crash, ok, throw, ◌>>=◌, ◌>>◌}
use luarpc.Wire.{write_string, write_uint32}

abbrev pub handle : Helper → ℕ
handle (root h n p f) = h
handle (child q h n p f) = h

abbrev pub nparents : Helper → ℕ
nparents (root h n p f) = n
nparents (child q h n p f) = n

abbrev pub funcname : Helper → Bytes
funcname (root h n p f) = f
funcname (child q h n p f) = f

abbrev pub parent : Helper → Option Helper
parent (root h n p f) = none
parent (child q h n p f) = some q

-- The loop that fills `hstack` from its end: `k` rounds are left, `cur` is the entry filled last
-- and the head of `hstack`. `none` is a NULL parent, which the next use dereferences.
unfoldable pub fill_hstack : ℕ → Helper → List Helper → ℕ → Option (List Helper × ℕ)
fill_hstack zero cur hstack len = some (hstack, len)
fill_hstack (suc k) cur hstack len = elim (parent cur) [
  | none ↦ none
  | some p ↦ fill_hstack k p (p ∷ hstack) (len + length (funcname cur) + 1)
]

module _ {G : Type 0} where
  -- A write on the transport `h`, which need not be the one that the operation works on.
  abbrev foreign : ℕ → Sent → Cmd G (Unit {0})
  foreign h x s =
      if s.peer_open h
      then ok tt (record s { stray = s.stray ++ (h, x) ∷ [] })
      else throw (exception fatal err_closed) s

  unfoldable pub send_word : Machine → ℕ → ℕ → Cmd G (Unit {0})
  send_word m h x s = if h == s.self then write_uint32 m x s else foreign h (word x) s

  unfoldable pub send_chars : ℕ → Bytes → Cmd G (Unit {0})
  send_chars h b s = if h == s.self then write_string b (length b) s else foreign h (chars b) s

  unfoldable pub replay : ℕ → List Helper → Cmd G (Unit {0})
  replay h [] = pure tt
  replay h (x ∷ xs) = do send_chars h (funcname x); send_chars h (b'.' ∷ []); replay h xs

  unfoldable pub helper_remote_index : Machine → Helper → Cmd G (Unit {0})
  unfolding fill_hstack replay
  helper_remote_index m h =
      let len = length (funcname h) in
      let last = send_chars (handle h) (funcname h) in
      if ltb 0 (nparents h)
      then elim (parent h) [
        | none ↦ crash
        | some p ↦ elim (fill_hstack (nparents h - 1) p (p ∷ []) (len + length (funcname p) + 1)) [
          | none ↦ crash
          | some (hstack, total) ↦ do send_word m (handle h) total; replay (handle h) hstack; last
        ]
      ]
      else send_word m (handle h) len >> last
