-- ===== src/Witnesses/Failures.antt =====
-- The theorems about commands that cannot be served, each at a concrete input.
use luarpc.Base.{◌≡◌, refl, true, [], ◌∷◌, ◌++◌, drop, codes, arith}
use luarpc.Lua.{Value, Lua}
use luarpc.Codes.{rpc_cmd_call, rpc_ready, rpc_cmd_get, rpc_cmd_con}
use luarpc.State.{ok, fault}
use luarpc.Wire.Laws.{emit, feed, Works}
use luarpc.Negotiate.Agreement.{hello}
use luarpc.Variable.Name.{tokens}
use luarpc.Server.{rpc_dispatch_worker}
use luarpc.Server.Failures.{doomed, dispatch-renegotiation, dispatch-no_name}
use luarpc.Wire.Words.{wire}
use luarpc.Variable.Tree.{Tree, Builds, enc_text, PathTo, Fields}
use luarpc.Variable.Lists.{enc_all, BuildsAll}
use luarpc.Server.Undefined.{enc_undefined, reply_call-undefined}
use luarpc.Server.Refusals.{enc_error, reply_call-failed}
use luarpc.Examples.{World, interpreter, machine, big_machine, at_start, library}

library-Works : Works (at_start library)
library-Works = record { opened = refl; unbroken = refl }

-- A name of two dots.
dots-tokens : tokens (codes "..") ≡ []
unfolding tokens
dots-tokens = refl

dispatch-renegotiation_example :
    rpc_dispatch_worker interpreter machine 9
      (feed (rpc_cmd_con ∷ hello big_machine) (at_start library))
    ≡ ok tt (doomed (feed (drop 1 (hello big_machine)) (at_start library)))
dispatch-renegotiation_example =
    dispatch-renegotiation interpreter machine 9 big_machine (at_start library) library-Works

dispatch-no_name_example :
    rpc_dispatch_worker interpreter machine 9
      (feed (rpc_cmd_get ∷ enc_text true (codes "..")) (at_start library))
    ≡ fault
dispatch-no_name_example =
    dispatch-no_name interpreter machine 9 (codes "..") (at_start library) dots-tokens (omega arith)
      (record { works = library-Works; agree = refl })

-- An interpreter whose functions all fail.
abbrev failing : Lua World
failing = record interpreter { pcall = λ g f vs. (2, Value.string (codes "no") ∷ [], g) }

path_f : PathTo failing (tokens (codes "t.f")) library (Value.function 7) library
unfolding PathTo Fields tokens
path_f = (Value.table 0, library, refl, (Value.function 7, library, refl, (refl, refl)))

built_true :
    BuildsAll failing machine
      (at_start library).tpt
      (Tree.boolean true ∷ [])
      library
      (Value.boolean true ∷ [])
      library
unfolding Builds
built_true = (Value.boolean true, [], library, refl, (refl, refl), (refl, refl))

reply_call-failed_example :
    rpc_dispatch_worker failing machine 9 (
      feed
        (rpc_cmd_call
          ∷ (enc_text true (codes "t.f")
              ++ (wire true 4 1 ++ enc_all true (Tree.boolean true ∷ []))))
        (at_start library))
    ≡ ok tt (emit (rpc_ready ∷ enc_error true 2 (codes "no")) (at_start library))
reply_call-failed_example =
    reply_call-failed failing machine 9 (codes "t.f") 7 library (Tree.boolean true ∷ [])
      (Value.boolean true ∷ []) library library 2 (Value.string (codes "no") ∷ []) (codes "no")
      (at_start library) path_f built_true refl (λ e. omega arith) refl (omega arith) (omega arith)
      (omega arith) (record { works = record { opened = refl; unbroken = refl }; agree = refl })

path_nil : PathTo failing (tokens (codes "t.h")) library Value.nil library
unfolding PathTo Fields tokens
path_nil = (Value.table 0, library, refl, (Value.nil, library, refl, (refl, refl)))

reply_call-undefined_example :
    rpc_dispatch_worker failing machine 9 (
      feed
        (rpc_cmd_call
          ∷ (enc_text true (codes "t.h")
              ++ (wire true 4 1 ++ enc_all true (Tree.boolean true ∷ []))))
        (at_start library))
    ≡ ok tt (emit (rpc_ready ∷ enc_undefined true 2 (codes "t.h")) (at_start library))
reply_call-undefined_example =
    reply_call-undefined failing machine 9 (codes "t.h") Value.nil library (Tree.boolean true ∷ [])
      (Value.boolean true ∷ []) library (at_start library) path_nil refl built_true (omega arith)
      (omega arith) (record { works = record { opened = refl; unbroken = refl }; agree = refl })
