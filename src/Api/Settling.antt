-- ===== src/Api/Settling.antt =====
-- What becomes of one future of voxcpm_runtime/api_runtime.py: the dispatcher takes it from the table,
-- tests it and answers it, and its owner may cancel it at any time.
use open_bmb_vox_cpm2_infere.Common.{
  ℕ, ◌<◌, ◌≡◌, ◌≢◌, refl, sym, ap, ◌∙◌, Bool, true, false, Option, none, some, String, List, ltb,
  if◌then◌else◌, arith,
}
use open_bmb_vox_cpm2_infere.Common.Dict.{lookup, lookup-pop, pop, All-pop}
use open_bmb_vox_cpm2_infere.Worker.Types.{WorkerMessage}
use open_bmb_vox_cpm2_infere.Api.{
  ApiRuntime, Future, waiting, cancelled, finished, ended, routing, testing, answering, set_at,
  take_future, resolved,
}
use open_bmb_vox_cpm2_infere.Api.Dispatch.{
  is_settling, at, found_future, route_to_future, check_done, set_result,
}
use open_bmb_vox_cpm2_infere.Api.Routed.{About, Answers, IsRouted, fewer-pop, at-IsRouted}
use open_bmb_vox_cpm2_infere.Api.Progress.{Progress, Same-Progress}

-- Without a request timeout a task of the HTTP application awaits asyncio.wrap_future(future), which
-- hands the task's cancellation on to the future. Only a future that was made has an owner.
unfoldable pub owner_cancel : ℕ → ApiRuntime → ApiRuntime
unfolding resolved set_at
owner_cancel f a =
    if ltb f a.next
    then record a { outcome = set_at f (resolved cancelled (a.outcome f)) a.outcome }
    else a

module _ (a : ApiRuntime) (h : IsRouted a) where
  stay : Progress a a
  stay = Same-Progress a h a h (refl, refl, refl)

  popped-Answers :
      (r : String) (f : ℕ) (e : WorkerMessage)
      → lookup r a.futures ≡ some f
      → About r e
      → is_settling e.kind ≡ true
      → Answers (pop r a.futures) a.requested a.next e f
  popped-Answers r f e l about s =
      let (o, q, lt) = h.in_table r f l in
      (lt, about ∙ ap some (sym q), s, λ i. ground (arith, lookup-pop r (a.requested f) a.futures))

  take_future-IsRouted :
      (r : String) (f : ℕ) (e : WorkerMessage) (es : List WorkerMessage)
      → lookup r a.futures ≡ some f
      → About r e
      → is_settling e.kind ≡ true
      → IsRouted (at (testing e f es) (take_future r a))
  take_future-IsRouted r f e es l about s = record {
    in_table = λ j g i. h.in_table j g (fewer-pop r a.futures j g i);
    answered = h.answered;
    streamed = h.streamed;
    buffered = h.buffered;
    bounded = h.bounded;
    carried = popped-Answers r f e l about s;
    made = All-pop (λ e. e.1 < a.next) r a.futures h.made;
    unborn = h.unborn;
    positive = h.positive;
  }

  found_future-Progress :
      (e : WorkerMessage) (es : List WorkerMessage) (r : String) (o : Option ℕ)
      → lookup r a.futures ≡ o
      → About r e
      → is_settling e.kind ≡ true
      → Progress a (found_future e es r o a)
  unfolding found_future
  found_future-Progress e es r none l about s =
      Same-Progress a h (at (routing es) a) (at-IsRouted a h (routing es) tt) (refl, refl, refl)
  found_future-Progress e es r (some f) l about s =
      Same-Progress a h (at (testing e f es) (take_future r a))
        (take_future-IsRouted r f e es l about s) (refl, refl, refl)

  whether :
      (b : Bool) (x y : ApiRuntime)
      → (b ≡ true → Progress a x)
      → Progress a y
      → Progress a (if b then x else y)
  whether true x y p q = p refl
  whether false x y p q = q

  pub route_to_future-Progress :
      (e : WorkerMessage) (es : List WorkerMessage) (r : String)
      → About r e
      → Progress a (route_to_future e es r a)
  unfolding route_to_future
  route_to_future-Progress e es r about =
      whether (is_settling e.kind) (found_future e es r (lookup r a.futures) a) (at (routing es) a)
        (λ s. found_future-Progress e es r (lookup r a.futures) refl about s)
        (Same-Progress a h (at (routing es) a) (at-IsRouted a h (routing es) tt) (refl, refl, refl))

  pub check_done-Progress :
      (o : Future) (e : WorkerMessage) (f : ℕ) (es : List WorkerMessage)
      → Answers a.futures a.requested a.next e f
      → Progress a (check_done o e f es a)
  unfolding check_done
  check_done-Progress waiting e f es c =
      Same-Progress a h (at (answering e f es) a) (at-IsRouted a h (answering e f es) c)
        (refl, refl, refl)
  check_done-Progress cancelled e f es c =
      Same-Progress a h (at (routing es) a) (at-IsRouted a h (routing es) tt) (refl, refl, refl)
  check_done-Progress (finished m) e f es c =
      Same-Progress a h (at (routing es) a) (at-IsRouted a h (routing es) tt) (refl, refl, refl)

  answer-IsRouted :
      (e : WorkerMessage) (f : ℕ) (es : List WorkerMessage)
      → Answers a.futures a.requested a.next e f
      → IsRouted (at (routing es) (record a { outcome = set_at f (finished e) a.outcome }))
  unfolding set_at
  answer-IsRouted e f es (lt, about, s, absent) = record {
    in_table = λ j g i. ground (arith, h.in_table j g i, absent);
    answered = λ g m i. ground (arith, h.answered g m);
    streamed = h.streamed;
    buffered = h.buffered;
    bounded = h.bounded;
    carried = tt;
    made = h.made;
    unborn = λ g le. ground (arith, h.unborn g);
    positive = h.positive;
  }

  answer_kept :
      (e : WorkerMessage) (f g : ℕ)
      → a.outcome f ≡ waiting
      → a.outcome g ≢ waiting
      → set_at f (finished e) a.outcome g ≡ a.outcome g
  unfolding set_at
  answer_kept e f g w n = ground arith

  pub set_result-Progress :
      (o : Future) (e : WorkerMessage) (f : ℕ) (es : List WorkerMessage)
      → a.outcome f ≡ o
      → Answers a.futures a.requested a.next e f
      → Progress a (set_result o e f es a)
  unfolding set_result
  set_result-Progress waiting e f es w c = record {
    routed = answer-IsRouted e f es c;
    kept = λ g n. answer_kept e f g w n;
    owned = λ g lt. (lt, refl);
  }
  set_result-Progress cancelled e f es w c =
      Same-Progress a h (at ended a) (at-IsRouted a h ended tt) (refl, refl, refl)
  set_result-Progress (finished m) e f es w c =
      Same-Progress a h (at ended a) (at-IsRouted a h ended tt) (refl, refl, refl)

  cancel-IsRouted :
      (f : ℕ)
      → f < a.next
      → IsRouted (record a { outcome = set_at f (resolved cancelled (a.outcome f)) a.outcome })
  unfolding set_at resolved
  cancel-IsRouted f lt = record {
    in_table = λ j g i. ground (arith, h.in_table j g i);
    answered = λ g m i. ground (arith, h.answered g m);
    streamed = h.streamed;
    buffered = h.buffered;
    bounded = h.bounded;
    carried = h.carried;
    made = h.made;
    unborn = λ g le. ground (arith, h.unborn g);
    positive = h.positive;
  }

  cancel_kept :
      (f g : ℕ)
      → a.outcome g ≢ waiting
      → set_at f (resolved cancelled (a.outcome f)) a.outcome g ≡ a.outcome g
  unfolding set_at resolved
  cancel_kept f g n = ground arith

  pub owner_cancel-Progress : (f : ℕ) → Progress a (owner_cancel f a)
  unfolding owner_cancel
  owner_cancel-Progress f =
      whether (ltb f a.next)
        (record a { outcome = set_at f (resolved cancelled (a.outcome f)) a.outcome }) a
        (λ e. record {
          routed = cancel-IsRouted f (ground arith);
          kept = λ g n. cancel_kept f g n;
          owned = λ g lt. (lt, refl);
        })
        stay
