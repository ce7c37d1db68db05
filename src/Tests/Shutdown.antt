-- ===== src/Tests/Shutdown.antt =====
-- Two callbacks, a request callback, a signal, a late registration and the end.
use app_com_util.Base.{◌≡◌, refl, some, List, [], ◌∷◌, true}
use app_com_util.Base.Int.{pos}
use app_com_util.Shutdown.{
  Event, Reason, CodeKind, signal_handler, request_register, register, atexit_callback, exit_with,
}
use app_com_util.Shutdown.Runs.{
  Op, do_register, do_request_register, do_signal, do_exit, do_atexit, start, run, advance, perform,
  IsOrderly,
}
use app_com_util.Shutdown.Orderly.{run-IsOrderly}

abbrev session : List Op
session =
    do_register (some 16) 1 true
    ∷ do_register (some 32) 2 true
    ∷ do_request_register (some 48) 3 true
    ∷ do_signal 15
    ∷ do_exit (pos 7)
    ∷ do_atexit
    ∷ do_register (some 64) 4 true
    ∷ []

abbrev normal_exit_7 : Event
normal_exit_7 = record {
  reason = Reason.normal_exit;
  code_kind = CodeKind.exit_code_kind;
  code = pos 7;
}

session_calls :
    (run session start).calls
    ≡ record { entry = record { callback = 32; context = 2 }; event = normal_exit_7 }
      ∷ record { entry = record { callback = 16; context = 1 }; event = normal_exit_7 }
      ∷ []
unfolding run advance perform signal_handler request_register register atexit_callback exit_with
session_calls = refl

run-IsOrderly_example : IsOrderly (run session start)
run-IsOrderly_example = run-IsOrderly session
