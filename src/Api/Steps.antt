-- ===== src/Api/Steps.antt =====
-- What the dispatcher of voxcpm_runtime/api_runtime.py does to futures and streams, step by step.
use open_bmb_vox_cpm2_infere.Common.{
  ℕ, ◌<◌, ◌≡◌, refl, sym, ap, ◌∙◌, Bool, true, false, Option, none, some, String, List, [], ◌∷◌,
  ◌++◌, ltb, leb, if◌then◌else◌, arith,
}
use open_bmb_vox_cpm2_infere.Common.Exec.{Outcome, ok, raised, continue}
use open_bmb_vox_cpm2_infere.Common.Dict.{lookup}
use open_bmb_vox_cpm2_infere.Common.Lists.{length, length-append, All}
use open_bmb_vox_cpm2_infere.Worker.Types.{WorkerMessage}
use open_bmb_vox_cpm2_infere.Worker.Errors.{Exception, worker, os_error, value_error}
use open_bmb_vox_cpm2_infere.Worker.Platform.{Platform}
use open_bmb_vox_cpm2_infere.Scheduler.Methods
use open_bmb_vox_cpm2_infere.Api.{
  ApiRuntime, cancelled, Dispatcher, polling, ended, routing, testing, answering, waiting_for,
  offering, drop_stream, settle, Action, update, on_scheduler,
}
use open_bmb_vox_cpm2_infere.Api.Methods.{forget}
use open_bmb_vox_cpm2_infere.Api.Dispatch.{
  is_streamed, ends_stream, backpressure_error, at, end_stream, enqueue, give_up, polled, poll_step,
  deadline_from, route_by, route_for, wait_until, wait_step, offer, step_from, dispatch_step,
}
use open_bmb_vox_cpm2_infere.Api.Settling.{
  route_to_future-Progress, check_done-Progress, set_result-Progress,
}
use open_bmb_vox_cpm2_infere.Api.Routed.{
  About, Carries, IsRouted, drop_stream-IsRouted, at-IsRouted, refill-IsRouted,
}
use open_bmb_vox_cpm2_infere.Api.Progress.{Progress, Same, Same-Progress, settle-Progress}

pub same : (a : ApiRuntime) → IsRouted a → Progress a a
same a h = Same-Progress a h a h (refl, refl, refl)

pub then_Progress : (a b c : ApiRuntime) → Progress a b → Progress b c → Progress a c
then_Progress a b c p q = record {
  routed = q.routed;
  kept = λ f n. q.kept f (λ e. n (sym (p.kept f n) ∙ e)) ∙ p.kept f n;
  owned = λ f lt. let (lt', e) = p.owned f lt in let (lt'', e') = q.owned f lt' in (lt'', e' ∙ e);
}

-- One more change that leaves the futures alone.
and_then : (a b c : ApiRuntime) → Progress a b → IsRouted c → Same b c → Progress a c
and_then a b c p i e = then_Progress a b c p (Same-Progress b p.routed c i e)

either_Progress :
    (a : ApiRuntime) (b : Bool) (x y : ApiRuntime)
    → (b ≡ true → Progress a x)
    → Progress a y
    → Progress a (if b then x else y)
either_Progress a true x y p q = p refl
either_Progress a false x y p q = q

end_stream-Progress :
    (a : ApiRuntime) (h : IsRouted a) (e : WorkerMessage) (r : String)
    → Progress a (end_stream e r a)
unfolding end_stream
end_stream-Progress a h e r =
    either_Progress a (ends_stream e.kind) (drop_stream r a) a
      (λ t. Same-Progress a h (drop_stream r a) (drop_stream-IsRouted a h r) (refl, refl, refl))
      (same a h)

pub forget-Progress : (a : ApiRuntime) (h : IsRouted a) (r : String) → Progress a (forget r a)
unfolding forget
forget-Progress a h r =
    let p = settle-Progress a h r cancelled (λ m e. cc) in
    and_then a (settle r cancelled (lookup r a.futures) a)
      (drop_stream r (settle r cancelled (lookup r a.futures) a)) p
      (drop_stream-IsRouted (settle r cancelled (lookup r a.futures) a) p.routed r)
      (refl, refl, refl)

All-snoc :
    (P : WorkerMessage → Type 0) (ms : List WorkerMessage) (m : WorkerMessage)
    → All P ms
    → P m
    → All P (ms ++ m ∷ [])
All-snoc P [] m h k = (k, tt)
All-snoc P (x ∷ xs) m h k = (h.0, All-snoc P xs m h.1 k)

enqueue-IsRouted :
    (a : ApiRuntime) (h : IsRouted a) (e : WorkerMessage) (q : ℕ)
    → About (a.requested q) e
    → length (a.buffer q) < a.stream_queue_chunks
    → IsRouted (enqueue e q a)
enqueue-IsRouted a h e q about fits =
    refill-IsRouted a h q (a.buffer q ++ e ∷ [])
      (All-snoc (About (a.requested q)) (a.buffer q) e (h.buffered q) about)
      (omega (arith, length-append (a.buffer q) (e ∷ [])))

give_up-IsRouted :
    (a : ApiRuntime) (h : IsRouted a) (r : String) (q : ℕ)
    → a.requested q ≡ r
    → IsRouted (give_up r q a)
unfolding give_up
give_up-IsRouted a h r q e =
    refill-IsRouted (drop_stream r a) (drop_stream-IsRouted a h r) q (backpressure_error r ∷ [])
      (ap some (sym e), tt) h.positive

give_up-Progress :
    (a : ApiRuntime) (h : IsRouted a) (r : String) (q : ℕ)
    → a.requested q ≡ r
    → Progress a (give_up r q a)
unfolding give_up
give_up-Progress a h r q e =
    Same-Progress a h (give_up r q a) (give_up-IsRouted a h r q e) (refl, refl, refl)

module _ (P : Platform) (poll_ticks : ℕ) where
  open P use {World}

  abbrev pub Leads : {A : Type 0} → ApiRuntime → Outcome Exception A × (ApiRuntime × World) → Type 0
  Leads a x = Progress a x.1.0

  pub go_on-Leads :
      {A B : Type 0} (a b : ApiRuntime) (o : Outcome Exception A) (k : A → Action P B) (w : World)
      → Progress a b
      → ((x : A) → Leads b (k x (b, w)))
      → Leads a (continue o k (b, w))
  go_on-Leads a b (ok x) k w p q = then_Progress a b (k x (b, w)).1.0 p (q x)
  go_on-Leads a b (raised e) k w p q = p

  at-Progress :
      (a : ApiRuntime) (h : IsRouted a) (d : Dispatcher)
      → Carries a.futures a.requested a.next d
      → Progress a (at d a)
  at-Progress a h d c = Same-Progress a h (at d a) (at-IsRouted a h d c) (refl, refl, refl)

  polled-Leads :
      (o : Outcome Exception (List WorkerMessage)) (a : ApiRuntime) (h : IsRouted a) (w : World)
      → Leads a (polled P poll_ticks o (a, w))
  unfolding polled
  polled-Leads (ok events) a h w = at-Progress a h (routing events) tt
  polled-Leads (raised (worker e)) a h w = at-Progress a h (routing []) tt
  polled-Leads (raised os_error) a h w = at-Progress a h ended tt
  polled-Leads (raised (value_error m)) a h w = at-Progress a h ended tt

  poll_step-Leads :
      (b : Bool) (a : ApiRuntime) (h : IsRouted a) (w : World)
      → Leads a (poll_step P poll_ticks b (a, w))
  unfolding poll_step on_scheduler
  poll_step-Leads true a h w = at-Progress a h ended tt
  poll_step-Leads false a h w =
      let x = Methods.poll P poll_ticks (a.scheduler, w) in
      let b = record a { scheduler = x.1.0 } in
      then_Progress a b (polled P poll_ticks x.0 (b, x.1.1)).1.0
        (Same-Progress a h b h (refl, refl, refl)) (polled-Leads x.0 b h x.1.1)

  routed_on :
      (a : ApiRuntime) (h : IsRouted a) (b : ApiRuntime) (es : List WorkerMessage)
      → Progress a b
      → Progress a (at (routing es) b)
  routed_on a h b es p =
      and_then a b (at (routing es) b) p (at-IsRouted b p.routed (routing es) tt) (refl, refl, refl)

  route_waiting :
      (e : WorkerMessage) (es : List WorkerMessage) (r : String) (q : ℕ) (t : Option ℕ)
      (a : ApiRuntime) (h : IsRouted a) (w : World)
      → About r e
      → (a.requested q ≡ r) × (q < a.next)
      → Leads a (
          let (o, s) = deadline_from P poll_ticks t (a, w) in
          continue o (λ d. update P (at (waiting_for e r q d es))) s)
  unfolding deadline_from
  route_waiting e es r q none a h w about c =
      at-Progress a h (waiting_for e r q none es) (c.0, c.1, about)
  route_waiting e es r q (some t) a h w about c = at-Progress a h _ (c.0, c.1, about)

  route_by-Leads :
      (e : WorkerMessage) (es : List WorkerMessage) (r : String) (o : Option ℕ) (a : ApiRuntime)
      (h : IsRouted a) (w : World)
      → About r e
      → ((q : ℕ) → o ≡ some q → lookup r a.streams ≡ some q)
      → Leads a (route_by P poll_ticks e es r o (a, w))
  unfolding route_by
  route_by-Leads e es r none a h w about c = route_to_future-Progress a h e es r about
  route_by-Leads e es r (some q) a h w about c =
      route_waiting e es r q a.stream_backpressure_timeout a h w about (h.streamed r q (c q refl))

  route_for-Leads :
      (e : WorkerMessage) (es : List WorkerMessage) (o : Option String) (a : ApiRuntime)
      (h : IsRouted a) (w : World)
      → e.request_id ≡ o
      → Leads a (route_for P poll_ticks e es o (a, w))
  unfolding route_for
  route_for-Leads e es none a h w i = at-Progress a h (routing es) tt
  route_for-Leads e es (some r) a h w i =
      route_by-Leads e es r (if is_streamed e.kind then lookup r a.streams else none) a h w i
        λ q j. ground arith

  whether-Leads :
      (b : Bool) (m n : Action P (Unit {0})) (a : ApiRuntime) (w : World)
      → Leads a (m (a, w))
      → Leads a (n (a, w))
      → Leads a ((if b then m else n) (a, w))
  whether-Leads true m n a w p q = p
  whether-Leads false m n a w p q = q

  wait_until-Leads :
      (e : WorkerMessage) (r : String) (q : ℕ) (deadline : Option ℕ) (es : List WorkerMessage)
      (a : ApiRuntime) (h : IsRouted a) (w : World)
      → (a.requested q ≡ r) × (q < a.next) × About r e
      → Leads a (wait_until P poll_ticks e r q deadline es (a, w))
  unfolding wait_until
  wait_until-Leads e r q none es a h w c = at-Progress a h (offering e r q none es) c
  wait_until-Leads e r q (some deadline) es a h w c =
      let (t, w') = P.monotonic w in
      whether-Leads (leb deadline t) (update P (λ b. at (routing es) (give_up r q b)))
        (update P (at (offering e r q (some deadline) es))) a w'
        (routed_on a h (give_up r q a) es (give_up-Progress a h r q c.0))
        (at-Progress a h (offering e r q (some deadline) es) c)

  offer-Leads :
      (b : Bool) (e : WorkerMessage) (r : String) (q : ℕ) (deadline : Option ℕ)
      (es : List WorkerMessage) (a : ApiRuntime) (h : IsRouted a) (w : World)
      → (a.requested q ≡ r) × (q < a.next) × About r e
      → (b ≡ true → length (a.buffer q) < a.stream_queue_chunks)
      → Leads a (offer P poll_ticks b e r q deadline es (a, w))
  unfolding offer
  offer-Leads true e r q deadline es a h w c fits =
      let i = enqueue-IsRouted a h e q (c.2 ∙ ap some (sym c.0)) (fits refl) in
      routed_on a h (end_stream e r (enqueue e q a)) es (
        then_Progress a (enqueue e q a) (end_stream e r (enqueue e q a))
          (Same-Progress a h (enqueue e q a) i (refl, refl, refl))
          (end_stream-Progress (enqueue e q a) i e r))
  offer-Leads false e r q deadline es a h w c fits =
      at-Progress a h (waiting_for e r q deadline es) c

  wait_step-Leads :
      (b : Bool) (o : Option ℕ) (e : WorkerMessage) (r : String) (q : ℕ) (deadline : Option ℕ)
      (es : List WorkerMessage) (a : ApiRuntime) (h : IsRouted a) (w : World)
      → (a.requested q ≡ r) × (q < a.next) × About r e
      → Leads a (wait_step P poll_ticks b o e r q deadline es (a, w))
  unfolding wait_step
  wait_step-Leads true o e r q deadline es a h w c =
      routed_on a h (end_stream e r a) es (end_stream-Progress a h e r)
  wait_step-Leads false none e r q deadline es a h w c = at-Progress a h (routing es) tt
  wait_step-Leads false (some p) e r q deadline es a h w c =
      wait_until-Leads e r q deadline es a h w c

  step_from-Leads :
      (d : Dispatcher) (a : ApiRuntime) (h : IsRouted a) (w : World)
      → Carries a.futures a.requested a.next d
      → Leads a (step_from P poll_ticks d (a, w))
  unfolding step_from
  step_from-Leads ended a h w c = same a h
  step_from-Leads polling a h w c = poll_step-Leads a.stop a h w
  step_from-Leads (routing []) a h w c = at-Progress a h polling tt
  step_from-Leads (routing (e ∷ es)) a h w c = route_for-Leads e es e.request_id a h w refl
  step_from-Leads (testing e f es) a h w c = check_done-Progress a h (a.outcome f) e f es c
  step_from-Leads (answering e f es) a h w c = set_result-Progress a h (a.outcome f) e f es refl c
  step_from-Leads (waiting_for e r q deadline es) a h w c =
      wait_step-Leads a.stop (lookup r a.streams) e r q deadline es a h w c
  step_from-Leads (offering e r q deadline es) a h w c =
      offer-Leads (ltb (length (a.buffer q)) a.stream_queue_chunks) e r q deadline es a h w c
        λ t. ground arith

  pub dispatch_step-Leads :
      (a : ApiRuntime) (h : IsRouted a) (w : World) → Leads a (dispatch_step P poll_ticks (a, w))
  unfolding dispatch_step
  dispatch_step-Leads a h w = step_from-Leads a.dispatcher a h w h.carried
