-- ===== src/Worker/Client/Ending.antt =====
-- What cancel_active of voxcpm_runtime/worker_client.py makes of the worker's process.
use open_bmb_vox_cpm2_infere.Common.{ℕ, ◌≡◌, false, none, String}
use open_bmb_vox_cpm2_infere.Common.Exec.{Outcome, ok}
use open_bmb_vox_cpm2_infere.Worker.Errors.{Exception}
use open_bmb_vox_cpm2_infere.Worker.Platform.{Platform}
use open_bmb_vox_cpm2_infere.Worker.Client.{WorkerClient, stopped}

-- What is_alive, kill and join are documented to do: asking changes nothing, a process that was
-- killed and waited for has ended, and one that has ended does not come back when a pipe or a queue
-- of the parent is closed.
pub record Kills (P : Platform) : Type 0 where
  pub asking : (p : ℕ) (w : P.World) → (P.is_alive p (P.is_alive p w).1).0 ≡ (P.is_alive p w).0
  pub killing : (p t : ℕ) (w : P.World) → (P.is_alive p (P.join p t (P.kill p w))).0 ≡ false
  pub closing_connection :
      (p h : ℕ) (w : P.World)
      → (P.is_alive p w).0 ≡ false
      → (P.is_alive p (P.close_connection h w)).0 ≡ false
  pub closing_queue :
      (p q : ℕ) (w : P.World)
      → (P.is_alive p w).0 ≡ false
      → (P.is_alive p (P.close_queue q w)).0 ≡ false

-- `cancel_active` has returned this request, and its process has ended.
abbrev pub IsEnded :
    (P : Platform) → String → ℕ → Outcome Exception String → WorkerClient → P.World → Type 0
IsEnded P r p o d w =
    (o ≡ ok r)
    × ((P.is_alive p w).0 ≡ false)
    × (d.state ≡ stopped)
    × (d.active_request_id ≡ none)
    × (d.control ≡ none)
    × (d.results ≡ none)
