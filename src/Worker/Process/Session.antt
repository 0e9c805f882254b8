-- ===== src/Worker/Process/Session.antt =====
-- The session of a worker process: its main function on the commands that it reads.
use open_bmb_vox_cpm2_infere.Common.{
  ◌≡◌, refl, ap, sym, subst, ◌∙◌, String, List, [], ◌∷◌, ◌++◌, map, arith,
}
use open_bmb_vox_cpm2_infere.Common.Exec.{Outcome, ok, raised, attempt, continue, pure, ◌>>◌}
use open_bmb_vox_cpm2_infere.Worker.Types.{WorkerBootstrapSpec, WorkerRequest, WorkerMessage}
use open_bmb_vox_cpm2_infere.Worker.Process.{
  Failure, Command, shutdown_command, request_command, Child, BackendInfo, put_message,
  handle_request, serve, load_and_serve, report, run_backend, worker_process_main, call,
  ready_message, shutdown_ack_message,
}
use open_bmb_vox_cpm2_infere.Worker.Process.Answers.{
  AreAnswers, Works, append_assoc, Sends, put_message_lem, put_sends, handle_request_lem,
}

module _ (P : Child) (works : Works P) where
  open P use {World}

  -- The outcome and the messages of the command loop, up to the acknowledgement of the shutdown.
  abbrev Served :
      String → List WorkerRequest → Outcome Failure (Unit {0}) → List WorkerMessage → Type 0
  Served worker rs o ms = (o ≡ ok tt) × AreAnswers worker rs (shutdown_ack_message P worker ∷ []) ms

  -- Shutting down sends the acknowledgement.
  acknowledged :
      (worker : String) (o : Outcome Failure (Unit {0})) (sent : List WorkerMessage) (w : World)
      → o ≡ ok tt
      → Sends P works
          (Served worker [])
          sent
          (continue o (λ _. put_message P (shutdown_ack_message P worker)) (sent, w))
  acknowledged worker o sent w e =
      subst
        (λ q.
          Sends P works (Served worker []) sent
            (continue q (λ _. put_message P (shutdown_ack_message P worker)) (sent, w)))
        (sym e)
        (put_sends P works (Served worker []) (shutdown_ack_message P worker) sent w (refl, refl))

  serve_lem :
      (worker : String) (rs : List WorkerRequest) (sent : List WorkerMessage) (w : World)
      → Sends P works
          (Served worker rs)
          sent
          (serve P worker (map request_command rs ++ (shutdown_command ∷ [])) (sent, w))
  unfolding serve
  serve_lem worker [] sent w =
      let (o, w') = P.close_backend w in acknowledged worker o sent w' (works.2 w)
  serve_lem worker (r ∷ rs) sent w =
      let x = handle_request P worker r (sent, w) in
      let (xs, e, (done, answer)) = handle_request_lem P works worker r sent w in
      let (ys, e', (returned, answers)) = serve_lem worker rs x.1.0 x.1.1 in
      subst
        (λ q. Sends P works (Served worker (r ∷ rs)) sent (
          continue q (λ _. serve P worker (map request_command rs ++ (shutdown_command ∷ []))) x.1))
        (sym done)
        (
          xs ++ ys,
          e' ∙ ap (λ l. l ++ ys) e ∙ append_assoc sent xs ys,
          (returned, (xs, ys, refl, answer, answers)),
        )

  -- The messages after which the queue holds what a session sends.
  abbrev pub Session :
      String
      → List WorkerRequest
      → BackendInfo
      → Outcome Failure (Unit {0})
      → List WorkerMessage
      → Type 0
  Session worker rs info o sent =
      (o ≡ ok tt)
      × ((ms : List WorkerMessage) × (sent ≡ ready_message P worker info ∷ ms)
          × AreAnswers worker rs (shutdown_ack_message P worker ∷ []) ms)

  loaded :
      (worker : String) (rs : List WorkerRequest) (info : BackendInfo)
      (o : Outcome Failure BackendInfo) (w : World)
      → o ≡ ok info
      → let x =
          continue o
            (λ i s.
              continue
                (put_message P (ready_message P worker i) s).0
                (λ _. serve P worker (map request_command rs ++ (shutdown_command ∷ [])))
                (put_message P (ready_message P worker i) s).1)
            ([], w) in
        Session worker rs info x.0 x.1.0
  loaded worker rs info o w e =
      subst
        (λ o.
          let x =
            continue o
              (λ i s.
                continue (put_message P (ready_message P worker i) s).0
                  (λ _. serve P worker (map request_command rs ++ (shutdown_command ∷ [])))
                  (put_message P (ready_message P worker i) s).1)
              ([], w) in
          Session worker rs info x.0 x.1.0)
        (sym e)
        (subst
          (λ y.
            let x =
              continue y.0 (λ _. serve P worker (map request_command rs ++ (shutdown_command ∷ [])))
                y.1 in
            Session worker rs info x.0 x.1.0)
          (sym (put_message_lem P works (ready_message P worker info) [] w))
          (let (ms, e', (returned, answers)) =
              serve_lem worker rs (ready_message P worker info ∷ [])
                (P.put (ready_message P worker info) w).1 in
            (returned, (ms, e', answers))))

  reported :
      (worker : String) (rs : List WorkerRequest) (info : BackendInfo)
      (o : Outcome Failure (Unit {0})) (sent : List WorkerMessage) (w : World)
      → Session worker rs info o sent
      → let x = report P worker o (sent, w) in Session worker rs info x.0 x.1.0
  unfolding report
  reported worker rs info (ok _) sent w s = s
  reported worker rs info (raised f) sent w s = ground arith

  -- A session stays one through a call that returns and sends nothing.
  followed :
      (worker : String) (rs : List WorkerRequest) (info : BackendInfo)
      (o : Outcome Failure (Unit {0})) (sent : List WorkerMessage) (w : World) (f : World → World)
      → Session worker rs info o sent
      → let x =
          continue {S = List WorkerMessage × World} o (λ _ s. (ok tt, (s.0, f s.1))) (sent, w) in
        Session worker rs info x.0 x.1.0
  followed worker rs info (ok _) sent w f s = s
  followed worker rs info (raised e) sent w f s = ground arith

  ran :
      (worker : String) (rs : List WorkerRequest) (info : BackendInfo)
      (o : Outcome Failure (Unit {0})) (w : World)
      → o ≡ ok tt
      → (P.load w).0 ≡ ok info
      → let x =
          run_backend P worker (map request_command rs ++ (shutdown_command ∷ [])) o ([], w) in
        Session worker rs info x.0 x.1.0
  unfolding run_backend load_and_serve
  ran worker rs info (raised f) w c e = ground arith
  ran worker rs info (ok _) w c e =
      let (i, w') = P.load w in
      let x = load_and_serve P worker (map request_command rs ++ (shutdown_command ∷ [])) ([], w) in
      let y = report P worker x.0 x.1 in
      followed worker rs info y.0 y.1.0 y.1.1 (λ v. (P.close_backend v).1)
        (reported worker rs info x.0 x.1.0 x.1.1 (loaded worker rs info i w' e))

  -- Where the queue takes every message and closing never raises, a worker process whose backend is
  -- created and loaded, and which reads some requests and then the shutdown command, returns having
  -- sent its ready message, then for each request in order an answer to it (some chunks and one
  -- message that ends it, a result, the end of the stream or an error, all with the ids of the
  -- worker and the request), and then the acknowledgement of the shutdown.
  pub worker_process_main-Session :
      (spec : WorkerBootstrapSpec) (rs : List WorkerRequest) (info : BackendInfo) (w : World)
      → (P.create_backend spec w).0 ≡ ok tt
      → (P.load (P.create_backend spec w).1).0 ≡ ok info
      → let (o, (sent, w')) =
          worker_process_main P spec (map request_command rs ++ (shutdown_command ∷ [])) ([], w) in
        Session spec.worker_id rs info o sent
  unfolding worker_process_main
  worker_process_main-Session spec rs info w c e =
      let (o, w') = P.create_backend spec w in
      let x =
        run_backend P spec.worker_id (map request_command rs ++ (shutdown_command ∷ [])) o
          ([], w') in
      followed spec.worker_id rs info x.0 x.1.0 x.1.1 P.close_control
        (ran spec.worker_id rs info o w' c e)

module _ (P : Child) where
  open P use {World}

  report_lem :
      (worker : String) (o : Outcome Failure (Unit {0})) (sent : List WorkerMessage) (w : World)
      → (report P worker o (sent, w)).0 ≡ ok tt
  unfolding report
  report_lem worker o sent w = ground arith

  run_backend_lem :
      (worker : String) (cs : List Command) (o : Outcome Failure (Unit {0}))
      (sent : List WorkerMessage) (w : World)
      → (run_backend P worker cs o (sent, w)).0 ≡ ok tt
  unfolding run_backend
  run_backend_lem worker cs (raised e) sent w = report_lem worker (raised e) sent w
  run_backend_lem worker cs (ok _) sent w =
      let x = load_and_serve P worker cs (sent, w) in
      subst
        (λ q.
          (continue q (λ _. attempt (call P P.close_backend) >> pure tt)
            (report P worker x.0 x.1).1).0
          ≡ ok tt)
        (sym (report_lem worker x.0 x.1.0 x.1.1)) refl

  -- The main function of the worker process returns on every input, whatever the backend, the queue
  -- and the pipe do: also where the queue breaks and _put_message raises SystemExit(1), so that the
  -- exit code is not the one asked for.
  pub worker_process_main_returns :
      (spec : WorkerBootstrapSpec) (cs : List Command) (sent : List WorkerMessage) (w : World)
      → (worker_process_main P spec cs (sent, w)).0 ≡ ok tt
  unfolding worker_process_main
  worker_process_main_returns spec cs sent w =
      let (o, w') = P.create_backend spec w in
      let x = run_backend P spec.worker_id cs o (sent, w') in
      subst (λ q. (continue q (λ _. call P (λ v. (ok tt, P.close_control v))) x.1).0 ≡ ok tt)
        (sym (run_backend_lem spec.worker_id cs o sent w')) refl
