-- ===== src/Shutdown/Runs.antt =====
-- Runs of the process: what was registered, and which callbacks were called.
use app_com_util.Base.{ℕ, ◌≡◌, Bool, true, false, Option, some, List, [], ◌∷◌, ◌++◌}
use app_com_util.Base.Int.{ℤ}
use app_com_util.Status.{Status}
use app_com_util.Shutdown.{
  Callback, Event, Shutdown, initial, Call, call_all, register, request_register, exit_with,
  atexit_callback, signal_handler, console_ctrl_handler, invoke_for_test, request_invoke_for_test,
}

-- The operations, but for the reset that tests use.
pub data Op : Type 0 where
  do_register : Option ℕ → ℕ → Bool → Op
  do_request_register : Option ℕ → ℕ → Bool → Op
  do_exit : ℤ → Op
  do_atexit : Op
  do_signal : ℕ → Op
  do_console : ℕ → Op
  do_invoke : Option Event → Op
  do_request_invoke : Option Event → Op

-- The calls of request callbacks and of shutdown callbacks that an operation makes, and its state.
abbrev pub Result : Type 0
Result = List Call × List Call × Shutdown

unfoldable pub perform : Op → Shutdown → Result
perform (do_register callback context allocated) s =
    ([], [], (register callback context allocated s).1)
perform (do_request_register callback context allocated) s =
    ([], [], (request_register callback context allocated s).1)
perform (do_exit code) s = ([], [], (exit_with code s).1)
perform do_atexit s = let (calls, s') = atexit_callback s in ([], calls, s')
perform (do_signal number) s =
    let h = signal_handler number s in (h.request_calls, h.calls, h.state)
perform (do_console ctrl_type) s =
    let h = console_ctrl_handler ctrl_type s in (h.request_calls, h.calls, h.state)
perform (do_invoke event) s = let (answer, calls, s') = invoke_for_test event s in ([], calls, s')
perform (do_request_invoke event) s =
    let (answer, calls, s') = request_invoke_for_test event s in (calls, [], s')

-- The entries that an operation adds to the two lists: those of the calls that answered with success.
abbrev pub entry_of : Option ℕ → ℕ → Status → List Callback
entry_of (some callback) context Status.ok = record { callback = callback; context = context } ∷ []
entry_of _ _ _ = []

abbrev pub added : Op → Shutdown → List Callback
added (do_register callback context allocated) s =
    entry_of callback context (register callback context allocated s).0
added _ s = []

abbrev pub request_added : Op → Shutdown → List Callback
request_added (do_request_register callback context allocated) s =
    entry_of callback context (request_register callback context allocated s).0
request_added _ s = []

-- A run, its last operation first in the lists of entries: what was added, what was called, the state.
pub record Run : Type 0 where
  pub entries : List Callback
  pub request_entries : List Callback
  pub calls : List Call
  pub request_calls : List Call
  pub state : Shutdown

abbrev pub start : Run
start = record {
  entries = [];
  request_entries = [];
  calls = [];
  request_calls = [];
  state = initial;
}

unfoldable pub advance : Op → Run → Run
advance op r =
    let (request_calls, calls, s) = perform op r.state in
    record {
      entries = added op r.state ++ r.entries;
      request_entries = request_added op r.state ++ r.request_entries;
      calls = r.calls ++ calls;
      request_calls = r.request_calls ++ request_calls;
      state = s;
    }

unfoldable pub run : List Op → Run → Run
run [] r = r
run (op ∷ ops) r = run ops (advance op r)

-- A list of callbacks: nothing of it was called before the start; at the start all were called with one
-- event, the last registered first, and nothing is registered afterwards.
pub data Progress (entries pending : List Callback) (calls : List Call) (started : Bool)
    : Type 0 where
  waits : started ≡ false → pending ≡ entries → calls ≡ [] → Progress entries pending calls started
  ran :
      (event : Event)
      → started ≡ true
      → pending ≡ []
      → calls ≡ call_all event entries
      → Progress entries pending calls started

pub record IsOrderly (r : Run) : Type 0 where
  pub shutdown : Progress r.entries r.state.callbacks r.calls r.state.started
  pub request :
      Progress r.request_entries r.state.request_callbacks r.request_calls r.state.request_started
