-- ===== src/Worker/Factory/AllOrNothing.antt =====
-- Starting the workers is all or nothing.
use open_bmb_vox_cpm2_infere.Common.{◌≡◌, refl, ap, ◌∙◌, none, List, [], ◌∷◌, map, arith}
use open_bmb_vox_cpm2_infere.Common.Lists.{All, reverse_onto, All-reverse_onto, map-reverse_onto}
use open_bmb_vox_cpm2_infere.Common.Exec.{Outcome, ok, raised}
use open_bmb_vox_cpm2_infere.Worker.Types.{WorkerBootstrapSpec, WorkerMessage}
use open_bmb_vox_cpm2_infere.Worker.Errors.{Exception}
use open_bmb_vox_cpm2_infere.Worker.Platform.{Platform}
use open_bmb_vox_cpm2_infere.Worker.Client.{WorkerClient, created, ready, stopped}
use open_bmb_vox_cpm2_infere.Worker.Client.Transport.{receive_message, terminate_and_join}
use open_bmb_vox_cpm2_infere.Worker.Client.Methods.{start, shutdown}
use open_bmb_vox_cpm2_infere.Worker.Client.Valid.{IsValid, start-IsValid}
use open_bmb_vox_cpm2_infere.Worker.Client.Lifecycle.{AfterStart, start_lem, shutdown-stopped}
use open_bmb_vox_cpm2_infere.Worker.Factory.{
  Fleet, shutdown_each, roll_back, start_each, start_worker_clients,
}

abbrev pub IsNew : WorkerClient → Type 0
IsNew c = (c.state ≡ created) × IsValid c

abbrev pub IsReady : WorkerClient → Type 0
IsReady c = (c.state ≡ ready) × IsValid c

abbrev pub IsStopped : WorkerClient → Type 0
IsStopped c = (c.state ≡ stopped) × (c.control ≡ none) × (c.results ≡ none)

abbrev pub specs : List WorkerClient → List WorkerBootstrapSpec
specs cs = map (λ c. c.spec) cs

abbrev pub IsAllOrNothing : Outcome Exception (Unit {0}) → List WorkerClient → Type 0
IsAllOrNothing (ok _) cs = All IsReady cs
IsAllOrNothing (raised e) cs = All IsStopped cs

All-IsValid : (cs : List WorkerClient) → All IsReady cs → All IsValid cs
All-IsValid [] r = tt
All-IsValid (c ∷ cs) r = (r.0.1, All-IsValid cs r.1)

All-IsValid_new : (cs : List WorkerClient) → All IsNew cs → All IsValid cs
All-IsValid_new [] n = tt
All-IsValid_new (c ∷ cs) n = (n.0.1, All-IsValid_new cs n.1)

module _ (P : Platform) where
  open P use {World}

  spec-start : (c : WorkerClient) (w : World) → (start P (c, w)).1.0.spec ≡ c.spec
  unfolding start receive_message terminate_and_join
  spec-start c w = ground arith

  spec-shutdown : (c : WorkerClient) (w : World) → (shutdown P (c, w)).1.0.spec ≡ c.spec
  unfolding shutdown receive_message
  spec-shutdown c w = ground arith

  shutdown_each-IsStopped :
      (cs : List WorkerClient) (w : World) → All IsValid cs → All IsStopped (shutdown_each P cs w).0
  unfolding shutdown_each
  shutdown_each-IsStopped [] w v = tt
  shutdown_each-IsStopped (c ∷ cs) w v =
      (shutdown-stopped P c w v.0, shutdown_each-IsStopped cs (shutdown P (c, w)).1.1 v.1)

  specs-shutdown_each :
      (cs : List WorkerClient) (w : World) → specs (shutdown_each P cs w).0 ≡ specs cs
  unfolding shutdown_each
  specs-shutdown_each [] w = refl
  specs-shutdown_each (c ∷ cs) w =
      ap (λ k. k ∷ specs (shutdown_each P cs (shutdown P (c, w)).1.1).0) (spec-shutdown c w)
      ∙ ap (λ ks. c.spec ∷ ks) (specs-shutdown_each cs (shutdown P (c, w)).1.1)

  roll_back_lem :
      (e : Exception) (started others : List WorkerClient) (w : World)
      → All IsReady started
      → All IsValid others
      → let (o, (cs, w')) = roll_back P e started others w in
        IsAllOrNothing o cs × (specs cs ≡ reverse_onto (specs started) (specs others))
  unfolding roll_back
  roll_back_lem e started others w r v =
      let (started', w') = shutdown_each P started w in
      let (others', w'') = shutdown_each P others w' in
      (
        All-reverse_onto IsStopped started' others'
            (shutdown_each-IsStopped started w (All-IsValid started r))
            (shutdown_each-IsStopped others w' v),
        map-reverse_onto (λ c. c.spec) started' others'
            ∙ ap (λ ks. reverse_onto ks (specs others')) (specs-shutdown_each started w)
            ∙ ap (λ ks. reverse_onto (specs started) ks) (specs-shutdown_each others w'),
      )

  -- What a fleet promises: all or nothing, with the workers of `started` and `others` in order.
  abbrev Promises : Fleet P → List WorkerBootstrapSpec → List WorkerBootstrapSpec → Type 0
  Promises f started others = IsAllOrNothing f.0 f.1.0 × (specs f.1.0 ≡ reverse_onto started others)

  next_lem :
      (o : Outcome Exception WorkerMessage) (c d : WorkerClient) (w : World)
      (k : WorkerBootstrapSpec) (started cs : List WorkerClient)
      → AfterStart o d c
      → IsValid d
      → d.spec ≡ k
      → All IsReady started
      → All IsNew cs
      → (All IsReady (d ∷ started)
          → Promises (start_each P (d ∷ started) cs w) (d.spec ∷ specs started) (specs cs))
      → Promises
          (elim o [
            | ok m ↦ start_each P (d ∷ started) cs w
            | raised e ↦ roll_back P e started (d ∷ cs) w
          ])
          (specs started)
          (k ∷ specs cs)
  next_lem (ok m) c d w k started cs a v q r n rest =
      let (all, same) = rest ((a.0, v), r) in
      (all, same ∙ ap (λ z. reverse_onto (specs started) (z ∷ specs cs)) q)
  next_lem (raised e) c d w k started cs a v q r n rest =
      let (all, same) = roll_back_lem e started (d ∷ cs) w r (v, All-IsValid_new cs n) in
      (all, same ∙ ap (λ z. reverse_onto (specs started) (z ∷ specs cs)) q)

  start_each_lem :
      (started cs : List WorkerClient) (w : World)
      → All IsReady started
      → All IsNew cs
      → Promises (start_each P started cs w) (specs started) (specs cs)
  unfolding start_each
  start_each_lem started [] w r n =
      (All-reverse_onto IsReady started [] r tt, map-reverse_onto (λ c. c.spec) started [])
  start_each_lem started (c ∷ cs) w r n =
      let (o, cw) = start P (c, w) in
      next_lem o c cw.0 cw.1 c.spec started cs (start_lem P c w n.0.0) (start-IsValid P c w n.0.1)
        (spec-start c w) r n.1 (λ r'. start_each_lem (cw.0 ∷ started) cs cw.1 r' n.1)

  -- `start_worker_clients` of new clients is all or nothing: where it returns, every client is ready
  -- with its pipe, queue and process; where it raises, every client is stopped with its pipe and its
  -- queue dropped, those that never started included. The clients are the given ones in order.
  pub start_worker_clients-IsAllOrNothing :
      (cs : List WorkerClient) (w : World)
      → All IsNew cs
      → let (o, (ds, w')) = start_worker_clients P cs w in
        IsAllOrNothing o ds × (specs ds ≡ specs cs)
  unfolding start_worker_clients
  start_worker_clients-IsAllOrNothing [] w n = (tt, refl)
  start_worker_clients-IsAllOrNothing (c ∷ cs) w n = start_each_lem [] (c ∷ cs) w tt n
