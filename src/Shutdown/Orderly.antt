-- ===== src/Shutdown/Orderly.antt =====
-- Every callback is called at most once, the last registered first, and none comes too late unnoticed.
use app_com_util.Base.{
  ◌≡◌, refl, ap, subst, sym, ◌∙◌, Bool, true, false, not, ◌||◌, Option, none, some, List, [], ◌∷◌,
  ◌++◌, ◌⊎◌, inl, inr, Bool-cases, arith,
}
use app_com_util.Shutdown.{
  Callback, Event, Shutdown, Call, call_all, Handled, register, request_register, exit_with,
  atexit_callback, signal_handler, handle, console_ctrl_handler, invoke_for_test,
  request_invoke_for_test, invoke_shutdown_callbacks_once, invoke_shutdown_request_callbacks_once,
  make_normal_exit_event, is_empty, after_request, already, now_done,
}
use app_com_util.Shutdown.Runs.{
  Op, Run, Result, start, perform, advance, run, added, request_added, Progress, waits, ran,
  IsOrderly, do_register, do_request_register, do_exit, do_atexit, do_signal, do_console, do_invoke,
  do_request_invoke,
}

append_nil : {A : Type 0} (xs : List A) → xs ++ [] ≡ xs
append_nil [] = refl
append_nil (x ∷ xs) = ap (λ l. x ∷ l) (append_nil xs)

-- The walk over a list: it is done if the list was not walked before, and called then.
abbrev Walks : Event → List Callback → Bool → List Call → List Callback → Bool → Type 0
Walks event pending started calls pending' started' =
    ((started ≡ true) × (calls ≡ []) × (pending' ≡ pending) × (started' ≡ true))
    ⊎ ((started ≡ false) × (calls ≡ call_all event pending) × (pending' ≡ []) × (started' ≡ true))

Progress-same :
    {entries pending : List Callback} {calls more : List Call} {started : Bool}
    → Progress entries pending calls started
    → more ≡ []
    → Progress entries pending (calls ++ more) started
Progress-same {calls = calls} p e = rw (e, append_nil calls) p

Progress-walk :
    {entries pending pending' : List Callback} {calls more : List Call} {started started' : Bool}
    (event : Event)
    → Progress entries pending calls started
    → Walks event pending started more pending' started'
    → Progress entries pending' (calls ++ more) started'
Progress-walk event (waits off same none_called) (inl (on, _, _, _)) = absurd (cc (off, on))
Progress-walk event (waits off same none_called) (inr (_, called, empty, on)) =
    ran event on empty (rw (none_called, called, same) refl)
Progress-walk {calls = calls} event (ran first on empty called) (inl (_, no_more, kept, on')) =
    ran first on' (kept ∙ empty) (rw (no_more, append_nil calls) called)
Progress-walk event (ran first on empty called) (inr (off, _, _, _)) = absurd (cc (off, on))

Progress-add :
    {entries pending : List Callback} {calls : List Call} {started : Bool} (e : Callback)
    → Progress entries pending calls started
    → started ≡ false
    → Progress (e ∷ entries) (e ∷ pending) (calls ++ []) started
Progress-add e (waits off same none_called) _ =
    waits off (ap (λ l. e ∷ l) same) (rw none_called refl)
Progress-add e (ran first on empty called) off = absurd (cc (off, on))

-- What an operation does to one of the lists: nothing, or its walk.
abbrev Part : List Callback → Bool → List Call → List Callback → Bool → Type 0
Part pending started calls pending' started' =
    ((calls ≡ []) × (pending' ≡ pending) × (started' ≡ started))
    ⊎ ((event : Event) × Walks event pending started calls pending' started')

Progress-Part :
    {entries pending pending' : List Callback} {calls more : List Call} {started started' : Bool}
    → Progress entries pending calls started
    → Part pending started more pending' started'
    → Progress entries pending' (calls ++ more) started'
Progress-Part p (inl (no_more, kept, on)) = rw (kept, on) (Progress-same p no_more)
Progress-Part p (inr (event, walks)) = Progress-walk event p walks

abbrev Parts : Shutdown → Result → Type 0
Parts s (request_calls, calls, s') =
    Part s.request_callbacks s.request_started request_calls s'.request_callbacks s'.request_started
    × Part s.callbacks s.started calls s'.callbacks s'.started

Part-refl : {pending : List Callback} {started : Bool} → Part pending started [] pending started
Part-refl = inl (refl, refl, refl)

invoke-Parts :
    (event : Option Event) (s : Shutdown)
    → let (walked, calls, s') = invoke_shutdown_callbacks_once event s in Parts s ([], calls, s')
unfolding invoke_shutdown_callbacks_once
invoke-Parts none s = (Part-refl, Part-refl)
invoke-Parts (some event) s = elim (Bool-cases s.started) [
  | inl e ↦ rw e (Part-refl, inl (refl, refl, refl))
  | inr e ↦ rw e (Part-refl, inr (event, inr (refl, refl, refl, refl)))
]

request_invoke-Parts :
    (event : Option Event) (s : Shutdown)
    → let (walked, handled, calls, s') = invoke_shutdown_request_callbacks_once event s in
      Parts s (calls, [], s')
unfolding invoke_shutdown_request_callbacks_once
request_invoke-Parts none s = (Part-refl, Part-refl)
request_invoke-Parts (some event) s = elim (Bool-cases (s.started || s.request_started)) [
  | inl e ↦ rw e (Part-refl, Part-refl)
  | inr e ↦
      let off : s.request_started ≡ false = ground arith in
      rw e (inr (event, inr (off, refl, refl, refl)), Part-refl)
]

handle-Parts :
    (event : Event) (s : Shutdown)
    → let h = handle event s in Parts s (h.request_calls, h.calls, h.state)
unfolding handle after_request invoke_shutdown_request_callbacks_once invoke_shutdown_callbacks_once
handle-Parts event s =
    let result = λ (h : Handled). Parts s (h.request_calls, h.calls, h.state) in
    elim (Bool-cases (s.started || s.request_started)) [
      | inl e ↦
          let asked : invoke_shutdown_request_callbacks_once (some event) s
              ≡ (already, false, [], s) =
            rw e refl in
          subst result (sym (ap (after_request event) asked)) (Part-refl, Part-refl)
      | inr e ↦
          let off : s.request_started ≡ false = ground arith in
          let off' : s.started ≡ false = ground arith in
          let s' : Shutdown = record s { request_started = true; request_callbacks = [] } in
          let request : Part s.request_callbacks s.request_started
              (call_all event s.request_callbacks) [] true =
            inr (event, inr (off, refl, refl, refl)) in
          let asked : invoke_shutdown_request_callbacks_once (some event) s ≡ (
            now_done,
            not (is_empty s.request_callbacks),
            call_all event s.request_callbacks,
            s',
          ) =
            rw e refl in
          elim (Bool-cases (is_empty s.request_callbacks)) [
            | inl h ↦
                let left : invoke_shutdown_callbacks_once (some event) s' ≡ (
                  now_done,
                  call_all event s.callbacks,
                  record s' { started = true; callbacks = [] },
                ) =
                  rw off' refl in
                subst result
                  (sym (
                    ap (after_request event) asked
                    ∙ ap
                        (λ b.
                          after_request event
                            (now_done, not b, call_all event s.request_callbacks, s'))
                        h))
                  (subst (λ x. Parts s (call_all event s.request_callbacks, x.1, x.2)) (sym left)
                    (request, inr (event, inr (off', refl, refl, refl))))
            | inr h ↦
                subst result
                  (sym (
                    ap (after_request event) asked
                    ∙ ap
                        (λ b.
                          after_request event
                            (now_done, not b, call_all event s.request_callbacks, s'))
                        h))
                  (request, Part-refl)
          ]
    ]

perform-Parts :
    (op : Op) (s : Shutdown)
    → (added op s ≡ []) × (request_added op s ≡ []) × Parts s (perform op s)
      ⊎ ((e : Callback) × (s.started ≡ false)
          × (added op s ≡ e ∷ [])
          × (request_added op s ≡ [])
          × ((perform op s).0 ≡ [])
          × ((perform op s).1 ≡ [])
          × ((perform op s).2.callbacks ≡ e ∷ s.callbacks)
          × ((perform op s).2.started ≡ s.started)
          × ((perform op s).2.request_callbacks ≡ s.request_callbacks)
          × ((perform op s).2.request_started ≡ s.request_started))
      ⊎ ((e : Callback) × (s.request_started ≡ false)
          × (added op s ≡ [])
          × (request_added op s ≡ e ∷ [])
          × ((perform op s).0 ≡ [])
          × ((perform op s).1 ≡ [])
          × ((perform op s).2.callbacks ≡ s.callbacks)
          × ((perform op s).2.started ≡ s.started)
          × ((perform op s).2.request_callbacks ≡ e ∷ s.request_callbacks)
          × ((perform op s).2.request_started ≡ s.request_started))
unfolding perform register request_register exit_with atexit_callback signal_handler
    console_ctrl_handler invoke_for_test request_invoke_for_test
perform-Parts (do_register none context allocated) s = inl (refl, refl, (Part-refl, Part-refl))
perform-Parts (do_register (some f) context false) s = inl (refl, refl, (Part-refl, Part-refl))
perform-Parts (do_register (some f) context true) s = elim (Bool-cases s.started) [
  | inl e ↦ rw e (inl (refl, refl, (Part-refl, Part-refl)))
  | inr e ↦ rw e (inr (inl (_, refl, refl, refl, refl, refl, refl, refl, refl, refl)))
]
perform-Parts (do_request_register none context allocated) s =
    inl (refl, refl, (Part-refl, Part-refl))
perform-Parts (do_request_register (some f) context false) s =
    inl (refl, refl, (Part-refl, Part-refl))
perform-Parts (do_request_register (some f) context true) s =
    elim (Bool-cases (s.started || s.request_started)) [
      | inl e ↦ rw e (inl (refl, refl, (Part-refl, Part-refl)))
      | inr e ↦
          let off : s.request_started ≡ false = ground arith in
          rw e (inr (inr (_, off, refl, refl, refl, refl, refl, refl, refl, refl)))
    ]
perform-Parts (do_exit code) s = inl (refl, refl, (Part-refl, Part-refl))
perform-Parts do_atexit s = inl (refl, refl, invoke-Parts (some (make_normal_exit_event s)) s)
perform-Parts (do_signal number) s = inl (refl, refl, handle-Parts _ s)
perform-Parts (do_console ctrl_type) s = inl (refl, refl, handle-Parts _ s)
perform-Parts (do_invoke event) s = inl (refl, refl, invoke-Parts event s)
perform-Parts (do_request_invoke event) s = inl (refl, refl, request_invoke-Parts event s)

advance-IsOrderly : (op : Op) (r : Run) → IsOrderly r → IsOrderly (advance op r)
unfolding advance
advance-IsOrderly op r v = elim (perform-Parts op r.state) [
  | inl (none_new, no_request, (request, shutdown)) ↦
      rw (none_new, no_request)
        (record {
          shutdown = Progress-Part v.shutdown shutdown;
          request = Progress-Part v.request request;
        })
  | inr (inl (e, off, new, no_request, q, c, pending, on, pending', on')) ↦ record {
    shutdown = rw (new, c, pending, on) (Progress-add e v.shutdown off);
    request = rw (no_request, q, pending', on') (Progress-same v.request refl);
  }
  | inr (inr (e, off, none_new, new, q, c, pending, on, pending', on')) ↦ record {
    shutdown = rw (none_new, c, pending, on) (Progress-same v.shutdown refl);
    request = rw (new, q, pending', on') (Progress-add e v.request off);
  }
]

run_from-IsOrderly : (ops : List Op) (r : Run) → IsOrderly r → IsOrderly (run ops r)
unfolding run
run_from-IsOrderly [] r v = v
run_from-IsOrderly (op ∷ ops) r v = run_from-IsOrderly ops (advance op r) (advance-IsOrderly op r v)

-- In every run, whatever its registrations, exits, signals and console events are: before the shutdown
-- starts no shutdown callback was called and all that were registered with success wait; from then on
-- each of them was called exactly once, with one event, the last registered first. The same holds of
-- the request callbacks and the first request.
pub run-IsOrderly : (ops : List Op) → IsOrderly (run ops start)
run-IsOrderly ops =
    run_from-IsOrderly ops start
      (record { shutdown = waits refl refl refl; request = waits refl refl refl })
