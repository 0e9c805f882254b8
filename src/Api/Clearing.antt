-- ===== src/Api/Clearing.antt =====
-- What the end of ApiRuntime.close in voxcpm_runtime/api_runtime.py does to the futures.
use open_bmb_vox_cpm2_infere.Common.{ℕ, ◌≤◌, ◌<◌, ◌≡◌, ◌≢◌, refl, ◌∙◌, some, String, [], ◌∷◌, arith}
use open_bmb_vox_cpm2_infere.Common.Dict.{Dict, lookup}
use open_bmb_vox_cpm2_infere.Common.Lists.{All}
use open_bmb_vox_cpm2_infere.Worker.Types.{WorkerMessage}
use open_bmb_vox_cpm2_infere.Api.{
  ApiRuntime, Future, waiting, cancelled, finished, set_at, resolved,
}
use open_bmb_vox_cpm2_infere.Api.Methods.{cancel_each, clear}
use open_bmb_vox_cpm2_infere.Api.Routed.{IsRouted, fewer-Carries}
use open_bmb_vox_cpm2_infere.Api.Progress.{Progress}

pub cancel_each_kept :
    (d : Dict ℕ) (o : ℕ → Future) (f : ℕ) → o f ≢ waiting → cancel_each d o f ≡ o f
unfolding cancel_each set_at resolved
cancel_each_kept [] o f n = refl
cancel_each_kept ((r, g) ∷ d) o f n =
    cancel_each_kept d (set_at g (resolved cancelled (o g)) o) f (ground arith) ∙ ground arith

pub cancel_each_finished :
    (d : Dict ℕ) (o : ℕ → Future) (f : ℕ) (m : WorkerMessage)
    → cancel_each d o f ≡ finished m
    → o f ≡ finished m
unfolding cancel_each set_at resolved
cancel_each_finished [] o f m e = e
cancel_each_finished ((r, g) ∷ d) o f m e =
    ground (arith, cancel_each_finished d (set_at g (resolved cancelled (o g)) o) f m e)

cancel_each_unborn :
    (d : Dict ℕ) (o : ℕ → Future) (n f : ℕ)
    → All (λ e. e.1 < n) d
    → n ≤ f
    → o f ≡ waiting
    → cancel_each d o f ≡ waiting
unfolding cancel_each set_at
cancel_each_unborn [] o n f h le e = e
cancel_each_unborn ((r, g) ∷ d) o n f h le e =
    cancel_each_unborn d (set_at g (resolved cancelled (o g)) o) n f h.1 le (ground (arith, h.0))

pub no_entry : (r : String) (f : ℕ) → lookup {V = ℕ} r [] ≢ some f
unfolding lookup
no_entry r f e = cc

pub clear-Progress : (a : ApiRuntime) (h : IsRouted a) → Progress a (clear a)
clear-Progress a h = record {
  routed = record {
    in_table = λ r f e. absurd (no_entry r f e);
    answered = λ f m e. h.answered f m (cancel_each_finished a.futures a.outcome f m e);
    streamed = λ r q e. absurd (no_entry r q e);
    buffered = h.buffered;
    bounded = h.bounded;
    carried =
        fewer-Carries [] a.futures a.requested a.next a.dispatcher
          (λ r f e. absurd (no_entry r f e)) h.carried;
    made = tt;
    unborn = λ f le. cancel_each_unborn a.futures a.outcome a.next f h.made le (h.unborn f le);
    positive = h.positive;
  };
  kept = λ f n. cancel_each_kept a.futures a.outcome f n;
  owned = λ f lt. (lt, refl);
}
