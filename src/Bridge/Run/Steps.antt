-- ===== src/Bridge/Run/Steps.antt =====
-- One step of the run of internal/cdpbridge/run.go.
use mathlib.Core.List.{append-nil, append_assoc}
use mathlib.Core.Path.{subst}
use cdp_go.Base.{
  Bool, Bytes, List, Option, [], ap, arith, false, if◌then◌else◌, length, length-append, ltb,
  ltb→lt, none, refl, some, suc, sym, take, true, ◌++◌, ◌∙◌, ◌∷◌, ◌≡◌, ◌≢◌,
}
use cdp_go.Bridge.{Bridge, Services, publish}
use cdp_go.Bridge.Config.{BridgeConfig}
use cdp_go.Bridge.Run.{
  Action, Gauges, ListenError, Listener, Running, abandon, abandon_step, buffer_size, cancel,
  enqueue, enqueue_step, gave_up, handle, handle_step, holding, in_loop, queue_capacity, quit,
  quit_step, read, read_error, read_error_step, read_failed, read_step, reading, report,
  report_step, returned, step, tick,
}
use cdp_go.Bridge.Run.Invariant.{
  IsAnswer, IsListening, IsRunning, pending_of, publish_all-append, reads_of,
}

module _ {W : Type 0} (s : Services W) (c : BridgeConfig) where
  -- The step cannot happen, or leads to such a state.
  abbrev pub IsNext : Bridge W → List Bytes → Option (Running W) → Type 0
  IsNext start received none = Unit
  IsNext start received (some r) = IsRunning s c start received r

  only_if :
      (start : Bridge W) (received : List Bytes) (test : Bool) (r : Running W)
      → (test ≡ true → IsRunning s c start received r)
      → IsNext start received (if test then some r else none)
  only_if start received true r h = h refl
  only_if start received false r h = tt

  module _ (start : Bridge W) (received : List Bytes) (r : Running W)
      (h : IsRunning s c start received r) where
    cancel_lem : IsRunning s c start received (record r { canceled = true })
    cancel_lem = record {
      handled = h.handled;
      flow = h.flow;
      published = h.published;
      bounded = h.bounded;
      listening = now_listening r.listener h.listening;
      answered = now_answered r.answer h.answered;
    }
      where
        now_listening : (l : Listener) → IsListening l r.canceled → IsListening l true
        now_listening reading k = tt
        now_listening (holding d) k = tt
        now_listening (gave_up d) k = refl
        now_listening (returned none) k = refl
        now_listening (returned (some e)) k = tt

        now_answered :
            (a : Option (Option ListenError))
            → IsAnswer a r.listener r.canceled
            → IsAnswer a r.listener true
        now_answered none k = tt
        now_answered (some none) k = refl
        now_answered (some (some e)) k = k

    unanswered :
        (d : Bytes)
        → r.listener ≡ holding d
        → (a : Option (Option ListenError)) → IsAnswer a r.listener r.canceled
        → IsAnswer a reading r.canceled
    unanswered d e none t = tt
    unanswered d e (some none) t = t
    unanswered d e (some (some x)) t = absurd (ground (arith, e, t))

    -- A change of the listener alone, with what has been read.
    listener_lem :
        (l : Listener) (new : List Bytes)
        → pending_of l ≡ pending_of r.listener ++ new
        → IsListening l r.canceled
        → ((e : ListenError) → r.listener ≢ returned (some e))
        → IsRunning s c start (received ++ new) (record r { listener = l })
    listener_lem l new p k n = record {
      handled = h.handled;
      flow =
          ap (λ x. x ++ new) h.flow
          ∙ append_assoc h.handled (r.queue ++ pending_of r.listener) new
          ∙ ap (◌++◌ h.handled)
              (append_assoc r.queue (pending_of r.listener) new ∙ ap (◌++◌ r.queue) (sym p));
      published = h.published;
      bounded = h.bounded;
      listening = k;
      answered = still_answered r.answer h.answered;
    }
      where
        still_answered :
            (a : Option (Option ListenError))
            → IsAnswer a r.listener r.canceled
            → IsAnswer a l r.canceled
        still_answered none t = tt
        still_answered (some none) t = t
        still_answered (some (some e)) t = absurd (n e t)

    read_lem :
        (incoming : Bytes) (l : Listener)
        → r.listener ≡ l
        → IsNext start (received ++ (take buffer_size incoming ∷ [])) (read_step s c l incoming r)
    read_lem incoming reading e =
        listener_lem (holding (take buffer_size incoming)) _ (rw e refl) tt
          (λ x q. ground (arith, e, q))
    read_lem incoming (holding d) e = tt
    read_lem incoming (gave_up d) e = tt
    read_lem incoming (returned x) e = tt

    read_error_lem :
        (l : Listener) → r.listener ≡ l → IsNext start (received ++ []) (read_error_step s c l r)
    read_error_lem reading e =
        listener_lem _ [] (rw e refl) (unread r.canceled) (λ x q. ground (arith, e, q))
      where
        unread : (b : Bool) → IsListening (returned (if b then none else some read_failed)) b
        unread true = refl
        unread false = tt
    read_error_lem (holding d) e = tt
    read_error_lem (gave_up d) e = tt
    read_error_lem (returned x) e = tt

    abandon_lem :
        (l : Listener) → r.listener ≡ l → IsNext start (received ++ []) (abandon_step s c l r)
    abandon_lem (holding d) e =
        only_if start (received ++ []) r.canceled _
          (λ late. listener_lem (gave_up d) [] (rw e refl) late (λ x q. ground (arith, e, q)))
    abandon_lem reading e = tt
    abandon_lem (gave_up d) e = tt
    abandon_lem (returned x) e = tt

    enqueue_lem :
        (l : Listener) → r.listener ≡ l → IsNext start (received ++ []) (enqueue_step s c l r)
    enqueue_lem (holding d) e =
        only_if start (received ++ []) (ltb (length r.queue) queue_capacity) _ (λ room. record {
          handled = h.handled;
          flow =
              append-nil received
              ∙ h.flow
              ∙ ap (λ l. h.handled ++ (r.queue ++ pending_of l)) e
              ∙ ap (◌++◌ h.handled) (sym (append-nil (r.queue ++ (d ∷ []))));
          published = h.published;
          bounded = rw (length-append r.queue (d ∷ [])) (omega (arith, ltb→lt _ _ room));
          listening = tt;
          answered = unanswered d e r.answer h.answered;
        })
    enqueue_lem reading e = tt
    enqueue_lem (gave_up d) e = tt
    enqueue_lem (returned x) e = tt

    handle_lem :
        (q : List Bytes) → r.queue ≡ q → IsNext start (received ++ []) (handle_step s c q r)
    handle_lem [] e = tt
    handle_lem (d ∷ rest) e = record {
      handled = h.handled ++ (d ∷ []);
      flow =
          append-nil received
          ∙ h.flow
          ∙ ap (λ q. h.handled ++ (q ++ pending_of r.listener)) e
          ∙ sym (append_assoc h.handled (d ∷ []) (rest ++ pending_of r.listener));
      published =
          ap (λ b. (publish s c.prefix c.geofence.prefix d b).0) h.published
          ∙ sym (publish_all-append s c h.handled d start);
      bounded =
          let n : length r.queue ≡ suc (length rest) = ap length e in omega (arith, h.bounded);
      listening = h.listening;
      answered = h.answered;
    }

    -- Steps that leave the datagrams alone.
    answer_lem :
        (a : Option (Option ListenError))
        → IsAnswer a r.listener r.canceled
        → IsRunning s c start (received ++ []) (record r { answer = a })
    answer_lem a k = record {
      handled = h.handled;
      flow = append-nil received ∙ h.flow;
      published = h.published;
      bounded = h.bounded;
      listening = h.listening;
      answered = k;
    }

    report_lem :
        (l : Listener) → r.listener ≡ l → IsNext start (received ++ []) (report_step s c l r)
    report_lem reading e = tt
    report_lem (holding d) e = tt
    report_lem (gave_up d) e =
        answer_lem (some none) (subst (λ l. IsListening l r.canceled) e h.listening)
    report_lem (returned none) e =
        answer_lem (some none) (subst (λ l. IsListening l r.canceled) e h.listening)
    report_lem (returned (some x)) e = answer_lem (some (some x)) e

    quit_lem : IsNext start (received ++ []) (quit_step s c r)
    quit_lem = only_if start (received ++ []) r.canceled _ (λ late. answer_lem (some none) late)

    tick_lem :
        (test : Bool) (g : Gauges)
        → IsNext start (received ++ []) (if test then none else some (record r { gauges = g }))
    tick_lem true g = tt
    tick_lem false g = record {
      handled = h.handled;
      flow = append-nil received ∙ h.flow;
      published = h.published;
      bounded = h.bounded;
      listening = h.listening;
      answered = h.answered;
    }

  in_loop_lem :
      (start : Bridge W) (received : List Bytes) (a : Option (Option ListenError))
      (next : Option (Running W))
      → IsNext start received next
      → IsNext start received (in_loop a next)
  in_loop_lem start received none next h = h
  in_loop_lem start received (some a) next h = tt

  -- Every step of a run leads to a state of the invariant, with what it has read.
  pub step-IsNext :
      (start : Bridge W) (received : List Bytes) (a : Action) (r : Running W)
      → IsRunning s c start received r
      → IsNext start (received ++ reads_of a) (step s c a r)
  unfolding step
  step-IsNext start received cancel r h =
      subst (λ x. IsRunning s c start x (record r { canceled = true })) (sym (append-nil received))
        (cancel_lem start received r h)
  step-IsNext start received (read incoming) r h =
      read_lem start received r h incoming r.listener refl
  step-IsNext start received read_error r h = read_error_lem start received r h r.listener refl
  step-IsNext start received enqueue r h = enqueue_lem start received r h r.listener refl
  step-IsNext start received abandon r h = abandon_lem start received r h r.listener refl
  step-IsNext start received quit r h = in_loop_lem start _ r.answer _ (quit_lem start received r h)
  step-IsNext start received report r h =
      in_loop_lem start _ r.answer _ (report_lem start received r h r.listener refl)
  step-IsNext start received handle r h =
      in_loop_lem start _ r.answer _ (handle_lem start received r h r.queue refl)
  step-IsNext start received tick r h = tick_lem start received r h _ _
