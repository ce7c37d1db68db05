-- ===== src/Shutdown.antt =====
-- prod/libsrc/com_util/runtime/shutdown.c: the callbacks for the end of the process.
-- The state is the file's static variables. A callback list is a `List`, its head first. The callbacks
-- are not run: an operation answers with the calls that it makes, in their order. The lock is free
-- again before the first of them, and the state is then what the operation leaves, so what a callback
-- asks of these functions is a later operation on that state.
pub mod Runs
pub mod Orderly
use app_com_util.Base.{
  ℕ, Bool, true, false, not, ◌||◌, ◌&&◌, Option, none, some, List, [], ◌∷◌, map, if◌then◌else◌,
  ◌==◌,
}
use app_com_util.Base.Int.{ℤ, pos, ltb_ℤ}
use app_com_util.Status.{Status}

-- `struct shutdown_callback_entry` without its link: the function and its context, as addresses.
pub record Callback : Type 0 where
  pub callback : ℕ
  pub context : ℕ

pub data Reason : Type 0 where
  normal_exit process_terminating signal_or_console_event : Reason

pub data CodeKind : Type 0 where
  no_code exit_code_kind signal_number console_ctrl_type : CodeKind

-- `com_util_shutdown_event`
pub record Event : Type 0 where
  pub reason : Reason
  pub code_kind : CodeKind
  pub code : ℤ

-- `s_shutdown_callbacks` to `s_exit_code_valid`; `hooked` says that `s_shutdown_hook_once` is done.
pub record Shutdown : Type 0 where
  pub callbacks : List Callback
  pub request_callbacks : List Callback
  pub started : Bool
  pub request_started : Bool
  pub exit_code : ℤ
  pub exit_code_valid : Bool
  pub hooked : Bool

abbrev pub initial : Shutdown
initial = record {
  callbacks = [];
  request_callbacks = [];
  started = false;
  request_started = false;
  exit_code = pos 0;
  exit_code_valid = false;
  hooked = false;
}

-- `entry->callback(event, entry->context)`
pub record Call : Type 0 where
  pub entry : Callback
  pub event : Event

-- The loop over a detached list.
abbrev pub call_all : Event → List Callback → List Call
call_all event [] = []
call_all event (e ∷ es) = record { entry = e; event = event } ∷ call_all event es

-- What a walk returns: -1 for a null event, 1 if it was done before, 0.
pub data Walked : Type 0 where
  no_event already now_done : Walked

-- `make_normal_exit_event`
abbrev pub make_normal_exit_event : Shutdown → Event
make_normal_exit_event s = record {
  reason = Reason.normal_exit;
  code_kind = if s.exit_code_valid then CodeKind.exit_code_kind else CodeKind.no_code;
  code = if s.exit_code_valid then s.exit_code else pos 0;
}

-- `invoke_shutdown_callbacks_once`
unfoldable pub invoke_shutdown_callbacks_once :
    Option Event → Shutdown → Walked × List Call × Shutdown
invoke_shutdown_callbacks_once none s = (no_event, [], s)
invoke_shutdown_callbacks_once (some event) s =
    if s.started
    then (already, [], s)
    else (now_done, call_all event s.callbacks, record s { started = true; callbacks = [] })

abbrev pub is_empty : List Callback → Bool
is_empty [] = true
is_empty (e ∷ es) = false

-- `invoke_shutdown_request_callbacks_once`; the Boolean is `*handled_out`, which is 0 from the start in
-- the calls that read it.
unfoldable pub invoke_shutdown_request_callbacks_once :
    Option Event → Shutdown → Walked × Bool × List Call × Shutdown
invoke_shutdown_request_callbacks_once none s = (no_event, false, [], s)
invoke_shutdown_request_callbacks_once (some event) s =
    if s.started || s.request_started then (already, false, [], s) else (
      now_done,
      not (is_empty s.request_callbacks),
      call_all event s.request_callbacks,
      record s { request_started = true; request_callbacks = [] },
    )

-- `com_util_shutdown_register`; `allocated` says that `com_util_malloc` gave an entry, and `none` is a
-- null callback.
unfoldable pub register : Option ℕ → ℕ → Bool → Shutdown → Status × Shutdown
register none context allocated s = (Status.invalid_argument, s)
register (some callback) context allocated s =
    let s' : Shutdown = record s { hooked = true } in
    let entry : Callback = record { callback = callback; context = context } in
    if not allocated
    then (Status.out_of_memory, s')
    else if s'.started
    then (Status.unknown, s')
    else (Status.ok, record s' { callbacks = entry ∷ s'.callbacks })

-- `com_util_shutdown_request_register`
unfoldable pub request_register : Option ℕ → ℕ → Bool → Shutdown → Status × Shutdown
request_register none context allocated s = (Status.invalid_argument, s)
request_register (some callback) context allocated s =
    let s' : Shutdown = record s { hooked = true } in
    let entry : Callback = record { callback = callback; context = context } in
    if not allocated
    then (Status.out_of_memory, s')
    else if s'.started || s'.request_started
    then (Status.unknown, s')
    else (Status.ok, record s' { request_callbacks = entry ∷ s'.request_callbacks })

-- `COM_UTIL_EXIT_CODE_RESERVED_OUT_OF_RANGE`
abbrev pub reserved_out_of_range : ℤ
reserved_out_of_range = pos 125

abbrev pub effective_code : ℤ → ℤ
effective_code code =
    if ltb_ℤ code (pos 0) || ltb_ℤ (pos 124) code then reserved_out_of_range else code

-- `com_util_exit` up to the call of `exit`, which runs `shutdown_atexit_callback` if it is installed:
-- the code given to `exit`, and the state.
unfoldable pub exit_with : ℤ → Shutdown → ℤ × Shutdown
exit_with code s =
    (effective_code code, record s { exit_code = effective_code code; exit_code_valid = true })

-- `shutdown_atexit_callback`
unfoldable pub atexit_callback : Shutdown → List Call × Shutdown
unfolding invoke_shutdown_callbacks_once
atexit_callback s =
    let (walked, calls, s') = invoke_shutdown_callbacks_once (some (make_normal_exit_event s)) s in
    (calls, s')

-- What a handler of a request leaves: the calls of the request callbacks, those of the shutdown
-- callbacks, whether the process goes on, and the state.
pub record Handled : Type 0 where
  pub request_calls : List Call
  pub calls : List Call
  pub goes_on : Bool
  pub state : Shutdown

-- The two handlers once the request callbacks were asked for.
abbrev stays : List Call → Shutdown → Handled
stays request_calls s = record {
  request_calls = request_calls;
  calls = [];
  goes_on = true;
  state = s;
}

abbrev leaves : Event → List Call → Shutdown → Handled
leaves event request_calls s =
    let (walked, calls, s') = invoke_shutdown_callbacks_once (some event) s in
    record { request_calls = request_calls; calls = calls; goes_on = false; state = s' }

unfoldable pub after_request : Event → Walked × Bool × List Call × Shutdown → Handled
unfolding invoke_shutdown_callbacks_once
after_request event (now_done, true, request_calls, s) = stays request_calls s
after_request event (already, handled, request_calls, s) = stays request_calls s
after_request event (now_done, false, request_calls, s) = leaves event request_calls s
after_request event (no_event, handled, request_calls, s) = leaves event request_calls s

-- The part that the two handlers share.
unfoldable pub handle : Event → Shutdown → Handled
unfolding after_request invoke_shutdown_request_callbacks_once
handle event s = after_request event (invoke_shutdown_request_callbacks_once (some event) s)

-- `shutdown_signal_handler`: where the process does not go on, the signal is raised again with its
-- default action.
unfoldable pub signal_handler : ℕ → Shutdown → Handled
unfolding handle
signal_handler number s =
    handle
      (record {
        reason = Reason.signal_or_console_event;
        code_kind = CodeKind.signal_number;
        code = pos number;
      })
      s

-- `shutdown_console_ctrl_handler`; `CTRL_C_EVENT` is 0 and `CTRL_BREAK_EVENT` is 1.
unfoldable pub console_ctrl_handler : ℕ → Shutdown → Handled
unfolding handle
console_ctrl_handler ctrl_type s =
    handle
      (record {
        reason =
            if (ctrl_type == 0) || (ctrl_type == 1)
            then Reason.signal_or_console_event
            else Reason.process_terminating;
        code_kind = CodeKind.console_ctrl_type;
        code = pos ctrl_type;
      })
      s

-- The answer of the two `invoke_for_test`: the status, and `*invoked_out`.
abbrev pub invoked : Walked → Status × Option Bool
invoked no_event = (Status.invalid_argument, none)
invoked already = (Status.ok, some false)
invoked now_done = (Status.ok, some true)

-- `com_util_shutdown_invoke_for_test`
unfoldable pub invoke_for_test :
    Option Event → Shutdown → (Status × Option Bool) × List Call × Shutdown
unfolding invoke_shutdown_callbacks_once
invoke_for_test event s =
    let (walked, calls, s') = invoke_shutdown_callbacks_once event s in (invoked walked, calls, s')

-- `com_util_shutdown_request_invoke_for_test`
unfoldable pub request_invoke_for_test :
    Option Event → Shutdown → (Status × Option Bool) × List Call × Shutdown
unfolding invoke_shutdown_request_callbacks_once
request_invoke_for_test event s =
    let (walked, handled, calls, s') = invoke_shutdown_request_callbacks_once event s in
    (invoked walked, calls, s')

-- `com_util_shutdown_reset_for_test`
unfoldable pub reset_for_test : Shutdown → Shutdown
reset_for_test s = record initial { hooked = s.hooked }
