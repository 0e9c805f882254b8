-- ===== src/Api/Routes.antt =====
-- The way of one event of voxcpm_runtime/api_runtime.py from the list that was polled to its future.
use open_bmb_vox_cpm2_infere.Common.{
  ℕ, suc, ◌+◌, ◌≤◌, ◌≡◌, ◌≢◌, refl, ap, subst, ◌∙◌, ◌⊎◌, inl, inr, Bool, true, false, Option, none,
  some, String, String_discrete, List, ◌∷◌, if◌then◌else◌, arith, if_neg,
}
use open_bmb_vox_cpm2_infere.Common.Exec.{ok, continue}
use open_bmb_vox_cpm2_infere.Common.Dict.{Dict, lookup, pop, lookup-pop}
use open_bmb_vox_cpm2_infere.Worker.Types.{WorkerMessage}
use open_bmb_vox_cpm2_infere.Worker.Platform.{Platform}
use open_bmb_vox_cpm2_infere.Api.{
  ApiRuntime, Future, waiting, cancelled, finished, routing, testing, answering, set_at,
  take_future,
}
use open_bmb_vox_cpm2_infere.Api.Dispatch.{
  is_streamed, is_settling, at, found_future, route_to_future, check_done, set_result, route_by,
  route_for, step_from, dispatch_step, dispatch_steps,
}

-- A message that no stream waits for.
abbrev pub IsUnstreamed : Dict ℕ → WorkerMessage → Type 0
IsUnstreamed streams e = (r : String) → e.request_id ≡ some r → lookup r streams ≡ none

-- If the message settles a future of the table, that future is done.
abbrev pub IsDelivered : Dict ℕ → (ℕ → Future) → WorkerMessage → Type 0
IsDelivered futures outcome e =
    (r : String) (f : ℕ)
    → e.request_id ≡ some r
    → is_settling e.kind ≡ true
    → lookup r futures ≡ some f
    → outcome f ≢ waiting

-- A future of the table is still there, or it is done by now.
abbrev pub IsKept : ApiRuntime → ApiRuntime → Type 0
IsKept a b =
    (s : String) (f : ℕ)
    → lookup s a.futures ≡ some f
    → (lookup s b.futures ≡ some f) ⊎ (b.outcome f ≢ waiting)

answered_done : (f : ℕ) (m : WorkerMessage) (o : ℕ → Future) → set_at f (finished m) o f ≢ waiting
unfolding set_at
answered_done f m o e = ground arith

-- The future of request `r` has left the table and is done.
popped-IsKept :
    (a c : ApiRuntime) (r : String) (g : ℕ)
    → lookup r a.futures ≡ some g
    → c.futures ≡ pop r a.futures
    → c.outcome g ≢ waiting
    → IsKept a c
popped-IsKept a c r g l e d s f i = elim (String_discrete r s) [
  | yes p ↦ inr (λ z. d (subst (λ j. c.outcome j ≡ waiting) (ground arith) z))
  | no n ↦
      inl (ap (lookup s) e ∙ (lookup-pop r s a.futures ∙ (if_neg (String_discrete r s) n _ _ ∙ i)))
]

popped-IsDelivered :
    (a c : ApiRuntime) (e : WorkerMessage) (r : String) (g : ℕ)
    → e.request_id ≡ some r
    → lookup r a.futures ≡ some g
    → c.outcome g ≢ waiting
    → IsDelivered a.futures c.outcome e
popped-IsDelivered a c e r g i l d s f j k z w =
    d (subst (λ x. c.outcome x ≡ waiting) (ground arith) w)

module _ (P : Platform) (poll_ticks : ℕ) where
  open P use {World}

  -- One step, and then `n` more.
  after_step :
      (n : ℕ) (a b : ApiRuntime) (w : World)
      → dispatch_step P poll_ticks (a, w) ≡ (ok tt, (b, w))
      → dispatch_steps P poll_ticks (suc n) (a, w) ≡ dispatch_steps P poll_ticks n (b, w)
  unfolding dispatch_steps
  after_step n a b w e =
      ap (λ x. continue {B = Unit {0}} x.0 (λ u. dispatch_steps P poll_ticks n) x.1) e

  -- The steps on the event `e` lead from `a` to `c`, and at most three of them are needed.
  pub record Routes (e : WorkerMessage) (es : List WorkerMessage) (a c : ApiRuntime) (w : World)
      : Type 0 where
    pub place : c.dispatcher ≡ routing es
    pub streams : c.streams ≡ a.streams
    pub kept : IsKept a c
    pub delivered : IsDelivered a.futures c.outcome e
    pub reached :
        (n : ℕ)
        → (m : ℕ) × (m ≤ n + 3)
          × (dispatch_steps P poll_ticks m (a, w) ≡ dispatch_steps P poll_ticks n (c, w))

  abbrev pub RoutedTo : WorkerMessage → List WorkerMessage → ApiRuntime → World → Type 0
  RoutedTo e es a w = (c : ApiRuntime) × Routes e es a c w

  -- The event concerns no future of the table.
  ignored :
      (e : WorkerMessage) (es : List WorkerMessage) (a : ApiRuntime) (w : World)
      → dispatch_step P poll_ticks (a, w) ≡ (ok tt, (at (routing es) a, w))
      → IsDelivered a.futures a.outcome e
      → RoutedTo e es a w
  ignored e es a w step d = (
    at (routing es) a,
    record {
      place = refl;
      streams = refl;
      kept = λ s f i. inl i;
      delivered = d;
      reached = λ n. (suc n, omega arith, after_step n a (at (routing es) a) w step);
    },
  )

  testing_step :
      (o : Future) (e : WorkerMessage) (f : ℕ) (es : List WorkerMessage) (b : ApiRuntime)
      (w : World)
      → b.outcome f ≡ o
      → dispatch_step P poll_ticks (at (testing e f es) b, w)
        ≡ (ok tt, (check_done o e f es (at (testing e f es) b), w))
  unfolding dispatch_step step_from
  testing_step o e f es b w i =
      ap (λ q. (ok tt, (check_done q e f es (at (testing e f es) b), w))) i

  answering_step :
      (o : Future) (e : WorkerMessage) (f : ℕ) (es : List WorkerMessage) (b : ApiRuntime)
      (w : World)
      → b.outcome f ≡ o
      → dispatch_step P poll_ticks (at (answering e f es) b, w)
        ≡ (ok tt, (set_result o e f es (at (answering e f es) b), w))
  unfolding dispatch_step step_from
  answering_step o e f es b w i =
      ap (λ q. (ok tt, (set_result q e f es (at (answering e f es) b), w))) i

  -- A popped future that is done already: two steps.
  done_already :
      (e : WorkerMessage) (es : List WorkerMessage) (a : ApiRuntime) (w : World) (r : String)
      (f : ℕ)
      → e.request_id ≡ some r
      → lookup r a.futures ≡ some f
      → dispatch_step P poll_ticks (a, w) ≡ (ok tt, (at (testing e f es) (take_future r a), w))
      → a.outcome f ≢ waiting
      → dispatch_step P poll_ticks (at (testing e f es) (take_future r a), w)
        ≡ (ok tt, (at (routing es) (take_future r a), w))
      → RoutedTo e es a w
  done_already e es a w r f i l step d second =
      let b = at (testing e f es) (take_future r a) in
      let c = at (routing es) (take_future r a) in
      (
        c,
        record {
          place = refl;
          streams = refl;
          kept = popped-IsKept a c r f l refl d;
          delivered = popped-IsDelivered a c e r f i l d;
          reached = λ n.
              (suc (suc n), omega arith, after_step (suc n) a b w step ∙ after_step n b c w second);
        },
      )

  popped :
      (o : Future) (e : WorkerMessage) (es : List WorkerMessage) (a : ApiRuntime) (w : World)
      (r : String) (f : ℕ)
      → e.request_id ≡ some r
      → lookup r a.futures ≡ some f
      → dispatch_step P poll_ticks (a, w) ≡ (ok tt, (at (testing e f es) (take_future r a), w))
      → a.outcome f ≡ o
      → RoutedTo e es a w
  unfolding check_done set_result
  popped waiting e es a w r f i l step v =
      let b = at (testing e f es) (take_future r a) in
      let b' = at (answering e f es) (take_future r a) in
      let c =
        at (routing es) (record (take_future r a) { outcome = set_at f (finished e) a.outcome }) in
      let d = answered_done f e a.outcome in
      (
        c,
        record {
          place = refl;
          streams = refl;
          kept = popped-IsKept a c r f l refl d;
          delivered = popped-IsDelivered a c e r f i l d;
          reached = λ n. (
            suc (suc (suc n)),
            omega arith,
            after_step (suc (suc n)) a b w step
                ∙ (after_step (suc n) b b' w (testing_step waiting e f es (take_future r a) w v)
                    ∙ after_step n b' c w (answering_step waiting e f es (take_future r a) w v)),
          );
        },
      )
  popped cancelled e es a w r f i l step v =
      done_already e es a w r f i l step (λ z. cc)
        (testing_step cancelled e f es (take_future r a) w v)
  popped (finished m) e es a w r f i l step v =
      done_already e es a w r f i l step (λ z. cc)
        (testing_step (finished m) e f es (take_future r a) w v)

  found :
      (o : Option ℕ) (e : WorkerMessage) (es : List WorkerMessage) (a : ApiRuntime) (w : World)
      (r : String)
      → e.request_id ≡ some r
      → lookup r a.futures ≡ o
      → dispatch_step P poll_ticks (a, w) ≡ (ok tt, (found_future e es r o a, w))
      → RoutedTo e es a w
  unfolding found_future
  found none e es a w r i l step = ignored e es a w step (λ s f j k z. ground arith)
  found (some f) e es a w r i l step = popped (a.outcome f) e es a w r f i l step refl

  settled :
      (b : Bool) (e : WorkerMessage) (es : List WorkerMessage) (a : ApiRuntime) (w : World)
      (r : String)
      → e.request_id ≡ some r
      → is_settling e.kind ≡ b
      → dispatch_step P poll_ticks (a, w) ≡ (
        ok tt,
        ((if b then found_future e es r (lookup r a.futures) a else at (routing es) a), w),
      )
      → RoutedTo e es a w
  settled true e es a w r i k step = found (lookup r a.futures) e es a w r i refl step
  settled false e es a w r i k step = ignored e es a w step (λ s f j t z. ground arith)

  unless_streamed : (b : Bool) (o : Option ℕ) → o ≡ none → (if b then o else none) ≡ none
  unless_streamed true o e = e
  unless_streamed false o e = refl

  step_to_future :
      (e : WorkerMessage) (es : List WorkerMessage) (a : ApiRuntime) (w : World) (r : String)
      → a.dispatcher ≡ routing (e ∷ es)
      → e.request_id ≡ some r
      → lookup r a.streams ≡ none
      → dispatch_step P poll_ticks (a, w) ≡ (ok tt, (route_to_future e es r a, w))
  unfolding dispatch_step step_from route_for route_by
  step_to_future e es a w r d i n =
      ap (λ p. step_from P poll_ticks p (a, w)) d
      ∙ (ap (λ o. route_for P poll_ticks e es o (a, w)) i
          ∙ ap (λ o. route_by P poll_ticks e es r o (a, w))
              (unless_streamed (is_streamed e.kind) (lookup r a.streams) n))

  step_past :
      (e : WorkerMessage) (es : List WorkerMessage) (a : ApiRuntime) (w : World)
      → a.dispatcher ≡ routing (e ∷ es)
      → e.request_id ≡ none
      → dispatch_step P poll_ticks (a, w) ≡ (ok tt, (at (routing es) a, w))
  unfolding dispatch_step step_from route_for
  step_past e es a w d i =
      ap (λ p. step_from P poll_ticks p (a, w)) d ∙ ap (λ o. route_for P poll_ticks e es o (a, w)) i

  pub routes :
      (o : Option String) (e : WorkerMessage) (es : List WorkerMessage) (a : ApiRuntime) (w : World)
      → e.request_id ≡ o
      → a.dispatcher ≡ routing (e ∷ es)
      → IsUnstreamed a.streams e
      → RoutedTo e es a w
  unfolding route_to_future
  routes none e es a w i d n = ignored e es a w (step_past e es a w d i) (λ s f j k z. ground arith)
  routes (some r) e es a w i d n =
      settled (is_settling e.kind) e es a w r i refl (step_to_future e es a w r d i (n r i))
