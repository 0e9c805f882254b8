-- ===== src/Api/Routed.antt =====
-- What holds of the futures and streams of voxcpm_runtime/api_runtime.py between the steps of its
-- threads, and what each change of them keeps.
use open_bmb_vox_cpm2_infere.Common.{
  ℕ, ◌+◌, ◌≤◌, ◌<◌, ◌≡◌, ◌≢◌, sym, subst, Bool, true, false, Option, none, some, String, List, [],
  ◌∷◌, ℕ_discrete, arith,
}
use open_bmb_vox_cpm2_infere.Common.Dict.{
  Dict, lookup, put, pop, lookup-put, lookup-pop, All-put, All-pop,
}
use open_bmb_vox_cpm2_infere.Common.Lists.{length, All}
use open_bmb_vox_cpm2_infere.Worker.Types.{WorkerMessage}
use open_bmb_vox_cpm2_infere.Api.{
  ApiRuntime, Future, waiting, finished, Dispatcher, polling, ended, routing, testing, answering,
  waiting_for, offering, set_at, allocate, drop_stream, resolved, settle,
}
use open_bmb_vox_cpm2_infere.Api.Dispatch.{is_settling, at}

-- A message about this request.
abbrev pub About : String → WorkerMessage → Type 0
About r m = m.request_id ≡ some r

abbrev pub is_finished : Future → Bool
is_finished (finished m) = true
is_finished _ = false

-- A future that the thread has taken from the table, and the event that is to answer it.
abbrev pub Answers : Dict ℕ → (ℕ → String) → ℕ → WorkerMessage → ℕ → Type 0
Answers futures requested next e f =
    (f < next)
    × About (requested f) e
    × (is_settling e.kind ≡ true)
    × (lookup (requested f) futures ≢ some f)

-- Where the thread carries an event, it is about the request that the queue or the future was made for.
abbrev pub Carries : Dict ℕ → (ℕ → String) → ℕ → Dispatcher → Type 0
Carries futures requested next (waiting_for e r q deadline es) =
    (requested q ≡ r) × (q < next) × About r e
Carries futures requested next (offering e r q deadline es) =
    (requested q ≡ r) × (q < next) × About r e
Carries futures requested next (testing e f es) = Answers futures requested next e f
Carries futures requested next (answering e f es) = Answers futures requested next e f
Carries futures requested next _ = Unit {0}

-- No future in the table is finished, and each was made for its request; a finished one holds a message about
-- its own request that settles it; a stream's queue was made for its request, and every queue holds
-- messages about its own request only, and no more than its size; no future is done before it is made.
pub record Routed (chunks : ℕ) (futures streams : Dict ℕ) (dispatcher : Dispatcher) (next : ℕ)
    (outcome : ℕ → Future) (buffer : ℕ → List WorkerMessage) (requested : ℕ → String) : Type 0 where
  pub in_table :
      (r : String) (f : ℕ)
      → lookup r futures ≡ some f
      → (is_finished (outcome f) ≡ false) × (requested f ≡ r) × (f < next)
  pub answered :
      (f : ℕ) (m : WorkerMessage)
      → outcome f ≡ finished m
      → About (requested f) m × (is_settling m.kind ≡ true)
  pub streamed : (r : String) (q : ℕ) → lookup r streams ≡ some q → (requested q ≡ r) × (q < next)
  pub buffered : (q : ℕ) → All (About (requested q)) (buffer q)
  pub bounded : (q : ℕ) → length (buffer q) ≤ chunks
  pub carried : Carries futures requested next dispatcher
  pub made : All (λ e. e.1 < next) futures
  pub unborn : (f : ℕ) → next ≤ f → outcome f ≡ waiting
  pub positive : 1 ≤ chunks

abbrev pub IsRouted : ApiRuntime → Type 0
IsRouted a =
    Routed a.stream_queue_chunks a.futures a.streams a.dispatcher a.next a.outcome a.buffer
      a.requested

pub set_at_same : {A : Type 0} (k : ℕ) (v : A) (f : ℕ → A) (j : ℕ) → k ≡ j → set_at k v f j ≡ v
unfolding set_at
set_at_same k v f j e = ground arith

set_at_other : {A : Type 0} (k : ℕ) (v : A) (f : ℕ → A) (j : ℕ) → k ≢ j → set_at k v f j ≡ f j
unfolding set_at
set_at_other k v f j n = ground arith

pub All-set_at :
    (P : ℕ → List WorkerMessage → Type 0) (k j : ℕ) (v : List WorkerMessage)
    (f : ℕ → List WorkerMessage)
    → P k v
    → P j (f j)
    → P j (set_at k v f j)
unfolding set_at
All-set_at P k j v f h g = elim (ℕ_discrete k j) [
  | yes p ↦ subst (P j) (sym (set_at_same k v f j p)) (subst (λ i. P i v) p h)
  | no n ↦ subst (P j) (sym (set_at_other k v f j n)) g
]

-- Where a table has only entries of another, the thread carries what it carried.
pub fewer-Carries :
    (c d : Dict ℕ) (requested : ℕ → String) (next : ℕ) (p : Dispatcher)
    → ((s : String) (f : ℕ) → lookup s c ≡ some f → lookup s d ≡ some f)
    → Carries d requested next p
    → Carries c requested next p
fewer-Carries c d requested next polling k h = tt
fewer-Carries c d requested next ended k h = tt
fewer-Carries c d requested next (routing es) k h = tt
fewer-Carries c d requested next (waiting_for e r q t es) k h = h
fewer-Carries c d requested next (offering e r q t es) k h = h
fewer-Carries c d requested next (testing e f es) k h =
    (h.0, h.1, h.2, λ i. h.3 (k (requested f) f i))
fewer-Carries c d requested next (answering e f es) k h =
    (h.0, h.1, h.2, λ i. h.3 (k (requested f) f i))

pub fewer-pop :
    (r : String) (d : Dict ℕ) (s : String) (f : ℕ)
    → lookup s (pop r d) ≡ some f
    → lookup s d ≡ some f
fewer-pop r d s f e = ground (arith, lookup-pop r s d)

module _ (a : ApiRuntime) (h : IsRouted a) where
  pub drop_stream-IsRouted : (r : String) → IsRouted (drop_stream r a)
  drop_stream-IsRouted r = record {
    in_table = h.in_table;
    answered = h.answered;
    streamed = λ k q e. ground (arith, h.streamed k q, lookup-pop r k a.streams);
    buffered = h.buffered;
    bounded = h.bounded;
    carried = h.carried;
    made = h.made;
    unborn = h.unborn;
    positive = h.positive;
  }

  -- A future in the table of request `r` leaves it, with an outcome that answers `r` if it finishes.
  pub settle-IsRouted :
      (r : String) (v : Future)
      → ((m : WorkerMessage) → v ≡ finished m → About r m × (is_settling m.kind ≡ true))
      → (o : Option ℕ) → lookup r a.futures ≡ o
      → IsRouted (settle r v o a)
  unfolding settle set_at resolved
  settle-IsRouted r v k none e = h
  settle-IsRouted r v k (some f) e = record {
    in_table = λ j g i. ground (arith, h.in_table j g, h.in_table r f, lookup-pop r j a.futures);
    answered = λ g m i. ground (arith, h.answered g m, h.in_table r f, k m);
    streamed = h.streamed;
    buffered = h.buffered;
    bounded = h.bounded;
    carried =
        fewer-Carries (pop r a.futures) a.futures a.requested a.next a.dispatcher
          (fewer-pop r a.futures) h.carried;
    made = All-pop (λ e. e.1 < a.next) r a.futures h.made;
    unborn = λ g le. ground (arith, h.unborn g, h.in_table r f);
    positive = h.positive;
  }

  allocate-buffered :
      (r : String) (q : ℕ)
      → All (About (set_at a.next r a.requested q)) (set_at a.next [] a.buffer q)
  allocate-buffered r q = elim (ℕ_discrete a.next q) [
    | yes p ↦
        subst (All (About (set_at a.next r a.requested q)))
          (sym (set_at_same a.next [] a.buffer q p)) tt
    | no n ↦
        subst (All (About (set_at a.next r a.requested q)))
          (sym (set_at_other a.next [] a.buffer q n))
          (subst (λ s. All (About s) (a.buffer q)) (sym (set_at_other a.next r a.requested q n))
            (h.buffered q))
  ]

  allocate-Carries :
      (d : Dispatcher) (r : String)
      → Carries a.futures a.requested a.next d
      → Carries a.futures (set_at a.next r a.requested) (a.next + 1) d
  unfolding set_at
  allocate-Carries polling r c = tt
  allocate-Carries (testing e f es) r c =
      (omega (arith, c.0), ground (arith, c.0, c.1), c.2, λ i. ground (arith, c.0, c.3))
  allocate-Carries (answering e f es) r c =
      (omega (arith, c.0), ground (arith, c.0, c.1), c.2, λ i. ground (arith, c.0, c.3))
  allocate-Carries ended r c = tt
  allocate-Carries (routing es) r c = tt
  allocate-Carries (waiting_for e s q deadline es) r c = (ground arith, omega arith, c.2)
  allocate-Carries (offering e s q deadline es) r c = (ground arith, omega arith, c.2)

  made_later : (d : Dict ℕ) → All (λ e. e.1 < a.next) d → All (λ e. e.1 < a.next + 1) d
  made_later [] m = tt
  made_later ((r, f) ∷ d) m = (omega (arith, m.0), made_later d m.1)

  pub allocate-IsRouted : (r : String) → IsRouted (allocate r a)
  allocate-IsRouted r = record {
    in_table = λ j g i. unfold set_at in ground (arith, h.in_table j g);
    answered = λ g m i. unfold set_at in ground (arith, h.answered g m);
    streamed = λ j g i. unfold set_at in ground (arith, h.streamed j g);
    buffered = allocate-buffered r;
    bounded = λ q. unfold set_at in ground (arith, h.bounded q);
    carried = allocate-Carries a.dispatcher r h.carried;
    made = made_later a.futures h.made;
    unborn = λ f le. unfold set_at in ground (arith, h.unborn f);
    positive = h.positive;
  }

  pub at-IsRouted : (d : Dispatcher) → Carries a.futures a.requested a.next d → IsRouted (at d a)
  at-IsRouted d c = record {
    in_table = h.in_table;
    answered = h.answered;
    streamed = h.streamed;
    buffered = h.buffered;
    bounded = h.bounded;
    carried = c;
    made = h.made;
    unborn = h.unborn;
    positive = h.positive;
  }

  -- The queue `q` now holds `ms`.
  pub refill-IsRouted :
      (q : ℕ) (ms : List WorkerMessage)
      → All (About (a.requested q)) ms
      → length ms ≤ a.stream_queue_chunks
      → IsRouted (record a { buffer = set_at q ms a.buffer })
  refill-IsRouted q ms about fits = record {
    in_table = h.in_table;
    answered = h.answered;
    streamed = h.streamed;
    buffered =
        λ p. All-set_at (λ k v. All (About (a.requested k)) v) q p ms a.buffer about (h.buffered p);
    bounded = λ p.
        All-set_at (λ k v. length v ≤ a.stream_queue_chunks) q p ms a.buffer fits (h.bounded p);
    carried = h.carried;
    made = h.made;
    unborn = h.unborn;
    positive = h.positive;
  }

  -- An entry for the newest object, made for its request.
  pub enter_future-IsRouted :
      (r : String) (f : ℕ)
      → a.outcome f ≡ waiting
      → a.requested f ≡ r
      → f < a.next
      → Carries (put r f a.futures) a.requested a.next a.dispatcher
      → IsRouted (record a { futures = put r f a.futures })
  enter_future-IsRouted r f o e lt c = record {
    in_table = λ j g i. ground (arith, h.in_table j g, lookup-put r j f a.futures);
    answered = h.answered;
    streamed = h.streamed;
    buffered = h.buffered;
    bounded = h.bounded;
    carried = c;
    made = All-put (λ i. i.1 < a.next) r f a.futures h.made lt;
    unborn = h.unborn;
    positive = h.positive;
  }

  pub enter_stream-IsRouted :
      (r : String) (q : ℕ)
      → a.requested q ≡ r
      → q < a.next
      → IsRouted (record a { streams = put r q a.streams })
  enter_stream-IsRouted r q e lt = record {
    in_table = h.in_table;
    answered = h.answered;
    streamed = λ j g i. ground (arith, h.streamed j g, lookup-put r j q a.streams);
    buffered = h.buffered;
    bounded = h.bounded;
    carried = h.carried;
    made = h.made;
    unborn = h.unborn;
    positive = h.positive;
  }
