-- ===== src/Api/Stuck.antt =====
-- What keeps the dispatcher of voxcpm_runtime/api_runtime.py from going on.
use open_bmb_vox_cpm2_infere.Common.{
  ℕ, zero, suc, ◌≤◌, ◌≡◌, refl, sym, ap, subst, ◌∙◌, ◌⊎◌, inl, inr, false, none, some, String, List,
  ltb, arith,
}
use open_bmb_vox_cpm2_infere.Common.Exec.{Outcome, ok, continue}
use open_bmb_vox_cpm2_infere.Common.Dict.{lookup}
use open_bmb_vox_cpm2_infere.Common.Lists.{length}
use open_bmb_vox_cpm2_infere.Worker.Types.{WorkerMessage}
use open_bmb_vox_cpm2_infere.Worker.Errors.{Exception}
use open_bmb_vox_cpm2_infere.Worker.Platform.{Platform}
use open_bmb_vox_cpm2_infere.Api.{ApiRuntime, waiting_for, offering}
use open_bmb_vox_cpm2_infere.Api.Dispatch.{
  at, wait_until, wait_step, offer, step_from, dispatch_step, dispatch_steps,
}

module _ (P : Platform) (poll_ticks : ℕ) where
  open P use {World}

  not_less : (m n : ℕ) → n ≤ m → ltb m n ≡ false
  not_less m n h = ground arith

  -- The dispatcher is to put a message into the full queue of a stream that is still wanted, without a
  -- deadline.
  pub record IsStuck (e : WorkerMessage) (r : String) (q p : ℕ) (a : ApiRuntime) : Type 0 where
    pub running : a.stop ≡ false
    pub wanted : lookup r a.streams ≡ some p
    pub full : a.stream_queue_chunks ≤ length (a.buffer q)

  stuck_step :
      (e : WorkerMessage) (r : String) (q p : ℕ) (es : List WorkerMessage) (a : ApiRuntime)
      (w : World)
      → IsStuck e r q p a
      → (dispatch_step P poll_ticks (at (waiting_for e r q none es) a, w)
          ≡ (ok tt, (at (offering e r q none es) a, w)))
        × (dispatch_step P poll_ticks (at (offering e r q none es) a, w)
            ≡ (ok tt, (at (waiting_for e r q none es) a, w)))
  unfolding dispatch_step step_from wait_step wait_until offer
  stuck_step e r q p es a w h = (
    ap
          (λ b.
            wait_step P poll_ticks b (lookup r a.streams) e r q none es
              (at (waiting_for e r q none es) a, w))
          h.running
        ∙ ap
            (λ o.
              wait_step P poll_ticks false o e r q none es (at (waiting_for e r q none es) a, w))
            h.wanted,
    ap (λ b. offer P poll_ticks b e r q none es (at (offering e r q none es) a, w))
        (not_less (length (a.buffer q)) a.stream_queue_chunks h.full),
  )

  abbrev IsWaiting :
      WorkerMessage
      → String
      → ℕ
      → List WorkerMessage
      → ApiRuntime
      → World
      → Outcome Exception (Unit {0}) × (ApiRuntime × World)
      → Type 0
  IsWaiting e r q es a w x =
      (x ≡ (ok tt, (at (waiting_for e r q none es) a, w)))
      ⊎ (x ≡ (ok tt, (at (offering e r q none es) a, w)))

  next_step :
      ℕ
      → Outcome Exception (Unit {0}) × (ApiRuntime × World)
      → Outcome Exception (Unit {0}) × (ApiRuntime × World)
  next_step n x = continue x.0 (λ u. dispatch_steps P poll_ticks n) x.1

  stuck_steps :
      (n : ℕ) (e : WorkerMessage) (r : String) (q p : ℕ) (es : List WorkerMessage) (a : ApiRuntime)
      (w : World)
      → IsStuck e r q p a
      → IsWaiting e r q es a w (dispatch_steps P poll_ticks n (at (waiting_for e r q none es) a, w))
        × IsWaiting e r q es a w (dispatch_steps P poll_ticks n (at (offering e r q none es) a, w))
  unfolding dispatch_steps next_step
  stuck_steps zero e r q p es a w h = (inl refl, inr refl)
  stuck_steps (suc n) e r q p es a w h =
      let (one, two) = stuck_step e r q p es a w h in
      let (ih, ih') = stuck_steps n e r q p es a w h in
      (
        subst (λ x. IsWaiting e r q es a w (next_step n x)) (sym one) ih',
        subst (λ x. IsWaiting e r q es a w (next_step n x)) (sym two) ih,
      )

  -- Let the dispatcher be about to put a message into the full queue of a stream, with no time limit
  -- for a slow consumer. While the consumer takes nothing and nobody cancels or closes, the dispatcher
  -- polls no worker and settles no future, of whatever request, however many steps it makes.
  pub dispatch_steps-stuck :
      (n : ℕ) (e : WorkerMessage) (r : String) (q p : ℕ) (es : List WorkerMessage) (a : ApiRuntime)
      (w : World)
      → IsStuck e r q p a
      → let x = dispatch_steps P poll_ticks n (at (waiting_for e r q none es) a, w) in
        (x ≡ (ok tt, (at (waiting_for e r q none es) a, w)))
        ⊎ (x ≡ (ok tt, (at (offering e r q none es) a, w)))
  dispatch_steps-stuck n e r q p es a w h = (stuck_steps n e r q p es a w h).0
