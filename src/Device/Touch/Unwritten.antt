-- ===== src/Device/Touch/Unwritten.antt =====
-- The steps that write nothing.
use mercury_farm.Base.{
  ℕ, ◌≡◌, refl, ap, ◌∙◌, Bool, true, false, not, ◌&&◌, ◌||◌, Option, List, [], ◌∷◌, ◌++◌, arith,
  if-cases, is_some,
}
use mercury_farm.Util.StateQueue.{next, empty}
use mercury_farm.Util.FailCounter
use mercury_farm.Device.Touch.{
  restart_at, is_next, start_state, stop_state, ensured, ensure_state, finish_stop, inc, released,
  failed_start,
}
use mercury_farm.Device.Touch.State.{
  Running, stopped, starting, started, stopping, Banner, Writer, Consumer, state_started,
  state_stopped,
}

abbrev pub writers : List (Writer × Option Banner) → List Writer
writers [] = []
writers (e ∷ written) = e.0 ∷ writers written

abbrev pub have_banners : List (Writer × Option Banner) → Bool
have_banners [] = true
have_banners (e ∷ written) = is_some e.1 && have_banners written

abbrev pub is_started : Running → Bool
is_started started = true
is_started _ = false

abbrev no_writers : List Writer → Bool
no_writers [] = true
no_writers (w ∷ ws) = false

pub no_writers-nil : (ws : List Writer) → no_writers ws ≡ true → ws ≡ []
no_writers-nil [] h = refl
no_writers-nil (w ∷ ws) h = cc

abbrev pub can_write : Consumer → Bool
can_write s = s.socket && (is_some s.banner && no_writers s.write_queue)

-- a consumer that is started has a socket and a banner, and no writer waits
abbrev pub is_ready : Consumer → Bool
is_ready s = not (is_started s.running) || can_write s

pub record Written (touched : List Writer) (s : Consumer) : Type 0 where
  pub of_ready : is_ready s ≡ true
  pub of_order : writers s.written ++ s.write_queue ≡ touched
  pub of_banners : have_banners s.written ≡ true

-- what writes nothing
pub record Keeps (s t : Consumer) : Type 0 where
  pub of_written : t.written ≡ s.written
  pub of_queue : t.write_queue ≡ s.write_queue
  pub of_ready : is_ready s ≡ true → is_ready t ≡ true

pub Keeps-Written :
    (touched : List Writer) (s t : Consumer) → Keeps s t → Written touched s → Written touched t
Keeps-Written touched s t k w = record {
  of_ready = k.of_ready w.of_ready;
  of_order =
      ap (λ (l : List (Writer × Option Banner)). writers l ++ t.write_queue) k.of_written
      ∙ (ap (λ (l : List Writer). writers s.written ++ l) k.of_queue ∙ w.of_order);
  of_banners = ap have_banners k.of_written ∙ w.of_banners;
}

Keeps-trans : (s t u : Consumer) → Keeps s t → Keeps t u → Keeps s u
Keeps-trans s t u k l = record {
  of_written = l.of_written ∙ k.of_written;
  of_queue = l.of_queue ∙ k.of_queue;
  of_ready = λ r. l.of_ready (k.of_ready r);
}

pub Keeps-self : (s : Consumer) → Keeps s s
Keeps-self s = record { of_written = refl; of_queue = refl; of_ready = λ r. r }

pub stopped-Keeps :
    (s t : Consumer)
    → t.written ≡ s.written
    → t.write_queue ≡ s.write_queue
    → is_started t.running ≡ false
    → Keeps s t
stopped-Keeps s t w q r = record { of_written = w; of_queue = q; of_ready = λ _. ground (arith, r) }

start_state-Keeps : (s : Consumer) → Keeps s (start_state s)
unfolding start_state
start_state-Keeps s =
    if-cases (Keeps s) (is_next state_started (next s.desired).0)
      (λ _. stopped-Keeps s _ refl refl refl)
      (λ _. record { of_written = refl; of_queue = refl; of_ready = λ r. r })

stop_state-Keeps : (s : Consumer) → Keeps s (stop_state s)
unfolding stop_state
stop_state-Keeps s =
    if-cases (Keeps s) (is_next state_stopped (next s.desired).0)
      (λ _. stopped-Keeps s _ refl refl refl)
      (λ _. record { of_written = refl; of_queue = refl; of_ready = λ r. r })

ensured-Keeps : (r : Running) (s : Consumer) → Keeps s (ensured r s)
unfolding ensured
ensured-Keeps starting s = Keeps-self s
ensured-Keeps stopping s = Keeps-self s
ensured-Keeps stopped s = start_state-Keeps s
ensured-Keeps started s = stop_state-Keeps s

pub ensure_state-Keeps : (s t : Consumer) → Keeps s t → Keeps s (ensure_state t)
unfolding ensure_state
ensure_state-Keeps s t k =
    if-cases (Keeps s) (empty t.desired || (t.failed || t.lock)) (λ _. k)
      (λ _.
        Keeps-trans s (record t { lock = true }) (ensured t.running (record t { lock = true }))
          (record { of_written = k.of_written; of_queue = k.of_queue; of_ready = k.of_ready })
          (ensured-Keeps t.running (record t { lock = true })))

pub restart_at-Keeps : (r : Running) (s t : Consumer) → Keeps s t → Keeps s (restart_at r t)
unfolding restart_at
restart_at-Keeps started s t k = record {
  of_written = k.of_written;
  of_queue = k.of_queue;
  of_ready = k.of_ready;
}
restart_at-Keeps starting s t k = record {
  of_written = k.of_written;
  of_queue = k.of_queue;
  of_ready = k.of_ready;
}
restart_at-Keeps stopped s t k = k
restart_at-Keeps stopping s t k = k

pub inc-Keeps : (now : ℕ) (s t : Consumer) → Keeps s t → Keeps s (inc now t)
unfolding inc
inc-Keeps now s t k =
    if-cases (Keeps s) ((FailCounter.inc now t.fail_counter).1 && t.listening)
      (λ _. record { of_written = k.of_written; of_queue = k.of_queue; of_ready = k.of_ready })
      (λ _. record { of_written = k.of_written; of_queue = k.of_queue; of_ready = k.of_ready })

pub failed_start-Keeps : (c : Bool) (now : ℕ) (s : Consumer) → Keeps s (failed_start c now s)
unfolding failed_start released
failed_start-Keeps true now s = ensure_state-Keeps s _ (stopped-Keeps s _ refl refl refl)
failed_start-Keeps false now s =
    let k = inc-Keeps now s (finish_stop s) (stopped-Keeps s (finish_stop s) refl refl refl) in
    ensure_state-Keeps s _
      (record { of_written = k.of_written; of_queue = k.of_queue; of_ready = k.of_ready })
