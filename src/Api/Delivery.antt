-- ===== src/Api/Delivery.antt =====
-- What the dispatcher of voxcpm_runtime/api_runtime.py delivers.
use open_bmb_vox_cpm2_infere.Common.{
  ℕ, zero, suc, ◌*◌, ◌≤◌, ◌≡◌, refl, sym, subst, ◌∙◌, inl, inr, List, [], ◌∷◌, arith,
}
use open_bmb_vox_cpm2_infere.Common.Exec.{Outcome, ok}
use open_bmb_vox_cpm2_infere.Common.Dict.{Dict}
use open_bmb_vox_cpm2_infere.Common.Lists.{length, All}
use open_bmb_vox_cpm2_infere.Worker.Types.{WorkerMessage}
use open_bmb_vox_cpm2_infere.Worker.Errors.{Exception}
use open_bmb_vox_cpm2_infere.Worker.Platform.{Platform}
use open_bmb_vox_cpm2_infere.Api.{ApiRuntime, routing}
use open_bmb_vox_cpm2_infere.Api.Dispatch.{dispatch_step, dispatch_steps}
use open_bmb_vox_cpm2_infere.Api.Routed.{IsRouted}
use open_bmb_vox_cpm2_infere.Api.Progress.{Progress}
use open_bmb_vox_cpm2_infere.Api.Routes.{IsUnstreamed, IsDelivered, IsKept, routes}
use open_bmb_vox_cpm2_infere.Api.Steps.{same, go_on-Leads, dispatch_step-Leads}

module _ (P : Platform) (poll_ticks : ℕ) where
  open P use {World}

  dispatch_steps-Progress :
      (n : ℕ) (a : ApiRuntime) (h : IsRouted a) (w : World)
      → Progress a (dispatch_steps P poll_ticks n (a, w)).1.0
  unfolding dispatch_steps
  dispatch_steps-Progress zero a h w = same a h
  dispatch_steps-Progress (suc n) a h w =
      let x = dispatch_step P poll_ticks (a, w) in
      let p = dispatch_step-Leads P poll_ticks a h w in
      go_on-Leads P poll_ticks a x.1.0 x.0 (λ u. dispatch_steps P poll_ticks n) x.1.1 p
        (λ u. dispatch_steps-Progress n x.1.0 p.routed x.1.1)

  -- The events that are left, seen from the state before the first of them was routed.
  earlier :
      (a b c : ApiRuntime) (es : List WorkerMessage)
      → IsKept a b
      → Progress b c
      → All (IsDelivered b.futures c.outcome) es
      → All (IsDelivered a.futures c.outcome) es
  earlier a b c [] k p h = tt
  earlier a b c (e ∷ es) k p h = (
    (λ r f i s j. elim (k r f j) [
      | inl j' ↦ h.0 r f i s j'
      | inr d ↦ λ q. d (sym (p.kept f d) ∙ q)
    ]),
    earlier a b c es k p h.1,
  )

  IsUnstreamed-on :
      (s t : Dict ℕ) (es : List WorkerMessage)
      → t ≡ s
      → All (IsUnstreamed s) es
      → All (IsUnstreamed t) es
  IsUnstreamed-on s t es e h = subst (λ u. All (IsUnstreamed u) es) (sym e) h

  -- All events are routed after `n` steps, and those that settle a future of the table have done so.
  abbrev pub IsRouting :
      List WorkerMessage → Dict ℕ → Outcome Exception (Unit {0}) × (ApiRuntime × World) → Type 0
  IsRouting es futures x =
      (x.0 ≡ ok tt) × (x.1.0.dispatcher ≡ routing []) × All (IsDelivered futures x.1.0.outcome) es

  -- Let the dispatcher have a list of events to route, none of them for a stream. With at most three
  -- steps for each of them it has routed them all, and every future of the table that one of them
  -- settles is done.
  pub dispatch_steps-delivers :
      (es : List WorkerMessage) (a : ApiRuntime) (w : World)
      → IsRouted a
      → a.dispatcher ≡ routing es
      → All (IsUnstreamed a.streams) es
      → (n : ℕ) × (n ≤ 3 * length es)
        × IsRouting es a.futures (dispatch_steps P poll_ticks n (a, w))
  unfolding dispatch_steps
  dispatch_steps-delivers [] a w h d n = (0, omega arith, (refl, d, tt))
  dispatch_steps-delivers (e ∷ es) a w h d n =
      let (c, s) = routes P poll_ticks e.request_id e es a w refl d n.0 in
      let (m, few, here) = s.reached 0 in
      let p = subst (λ x. Progress a x.1.0) here (dispatch_steps-Progress m a h w) in
      let rest = IsUnstreamed-on a.streams c.streams es s.streams n.1 in
      let (k, le, (returned, place, all)) = dispatch_steps-delivers es c w p.routed s.place rest in
      let (j, le', there) = s.reached k in
      let q = dispatch_steps-Progress k c p.routed w in
      let b = (dispatch_steps P poll_ticks k (c, w)).1.0 in
      (
        j,
        omega arith,
        subst (IsRouting (e ∷ es) a.futures) (sym there) (
          returned,
          place,
          (
            (λ r f i t l z. s.delivered r f i t l (sym (q.kept f (s.delivered r f i t l)) ∙ z)),
            earlier a c b es s.kept q all,
          ),
        ),
      )
