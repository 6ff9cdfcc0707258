-- ===== src/Examples/Board.antt =====
-- A device for the examples, with the calls that paho/MQTTClient-C/src/FreeRTOS makes.
use mathlib.Core.Path.{sym}
use fembed_lwip.Common.{
  take-length, length-take_le, append-take-drop, ℕ, ◌-◌, ◌≤◌, ◌<◌, ◌≡◌, refl, ◌∙◌, ap, arith, ℤ,
  pos, List, [], ◌∷◌, ◌++◌, true, false, some, length, take, drop, ◌==◌, if◌then◌else◌,
}
use fembed_lwip.Wire.Source.{Got, bytes}
use fembed_lwip.FreeRtos.Os.{Os, OpenSsl, Ready}
use fembed_lwip.FreeRtos.Socket.{is_positive}
use fembed_lwip.FreeRtos.Arrivals.{Log, with_delay, Expiry, Arrivals}
use fembed_lwip.FreeRtos.Departures.{Departures, Writable}
use fembed_lwip.FreeRtos.Ledger.{Held, with_socket, with_context, with_session, Ledger}

-- What the network still has to deliver, what was sent, and what is open.
pub record World : Type 0 where
  pub inbox : List ℕ
  pub outbox : List ℕ
  pub held : Held
  pub log : Log

abbrev pub ready : Ready
ready = record { rc = pos 1; is_set = true; is_error = false }

abbrev tail {ℓ} : {A : Type ℓ} → List A → List A
tail [] = []
tail (x ∷ xs) = xs

-- A time-out fails as many checks as it has left, three at first.
abbrev pub device : Os ℕ World
device = record {
  tick_ms = 1;
  zero_time_out = 0;
  set_time_out_state = λ w. (3, w);
  check_for_time_out = λ t ticks w.
      (t == 0, t - 1, ticks, record w { log = if t == 0 then with_delay w.log else w.log });
  select_read = λ s usec w. (ready, w);
  select_write = λ s in_set in_errors usec w. (ready, w);
  recv = λ s n w. (bytes (take n w.inbox), record w { inbox = drop n w.inbox });
  send = λ s bs w. (pos (length bs), record w { outbox = w.outbox ++ bs });
  socket = λ w. (pos 7, record w { held = with_socket (pos 7) w.held });
  connect = λ s ip port w. (pos 0, w);
  close = λ s w. record w { held = record w.held { sockets = tail w.held.sockets } };
  gethostbyname = λ addr w. (some 1, w);
}

abbrev pub library : OpenSsl World
library = record {
  ctx_new = λ w. (some 1, record w { held = with_context 1 w.held });
  ctx_free = λ c w. record w { held = record w.held { contexts = tail w.held.contexts } };
  load_verify = λ c bs w. (pos 1, w);
  use_certificate = λ c bs w. (pos 1, w);
  use_private_key = λ c bs w. (pos 1, w);
  set_verify = λ c mode w. w;
  ssl_new = λ c w. (some 2, record w { held = with_session 2 w.held });
  ssl_free = λ s w. record w { held = record w.held { sessions = tail w.held.sessions } };
  set_fd = λ s fd w. w;
  ssl_connect = λ s w. (pos 1, w);
  ssl_read = λ n w. (bytes (take n w.inbox), record w { inbox = drop n w.inbox });
  ssl_write = λ bs w. (pos (length bs), record w { outbox = w.outbox ++ bs });
}

abbrev pub idle : List ℕ → World
idle inbox = record {
  inbox = inbox;
  outbox = [];
  held = record { sockets = []; contexts = []; sessions = []; failures = 0 };
  log = record { refusals = 0; delays = 0 };
}

pub countdown : (t : ℕ) → (t == 0) ≡ false → t - 1 < t
countdown t h = ground arith

unfoldable pub device-Expiry : Expiry device
device-Expiry = record {
  limit = 3;
  tests = λ t ticks w. t;
  passes = λ t ticks w h. countdown t h;
  started = λ ticks w. omega arith;
}

pub received :
    (n : ℕ) (inbox bs : List ℕ)
    → ◌≡◌ {A = Got} (bytes (take n inbox)) (bytes bs)
    → (length bs ≤ n) × (inbox ≡ bs ++ drop n inbox)
received n inbox bs e =
    let k : take n inbox ≡ bs = cc in
    (
      omega (arith, length-take_le n inbox, ap length k),
      sym (append-take-drop n inbox) ∙ ap (λ (ys : List ℕ). ys ++ drop n inbox) k,
    )

pub never_failed : (xs : List ℕ) {A : Type 0} → ◌≡◌ {A = Got} (bytes xs) Got.failed → A
never_failed xs e = absurd cc

unfoldable pub device-Arrivals : Arrivals device device-Expiry (pos 0)
unfolding device-Expiry is_positive
device-Arrivals = record {
  pending = λ w. w.inbox;
  log = λ w. w.log;
  received = λ n w bs e. (let (few, front) = received n w.inbox bs e in (few, (front, refl)));
  refused = λ n w e. never_failed (take n w.inbox) e;
  after_recv = λ t ticks n w. omega arith;
  at_check = λ t ticks w. (refl, refl);
  at_start = λ w. (refl, refl);
  at_select = λ usec w. (refl, refl);
  after_select = λ t ticks usec w. omega arith;
}

pub sent_all :
    (bs outbox : List ℕ) (n : ℕ)
    → ◌≡◌ {A = ℤ} (pos (length bs)) (pos n)
    → (n ≤ length bs) × (outbox ++ bs ≡ outbox ++ take n bs)
sent_all bs outbox n e =
    let k : length bs ≡ n = cc in
    (
      omega (arith, k),
      ap (λ (ys : List ℕ). outbox ++ ys) (sym (take-length bs) ∙ ap (λ (m : ℕ). take m bs) k),
    )

unfoldable pub device-Departures : Departures device device-Expiry (device.send (pos 0))
unfolding device-Expiry
device-Departures = record {
  sent = λ w. w.outbox;
  log = λ w. w.log;
  accepted = λ bs n w e. (let (few, front) = sent_all bs w.outbox n e in (few, (front, refl)));
  refused = λ bs n w e. absurd cc;
  after_send = λ t ticks bs w. omega arith;
  at_check = λ t ticks w. (refl, refl);
  at_start = λ w. (refl, refl);
}

unfoldable pub device-Writable :
    Writable device device-Expiry (pos 0) false (λ ready. ready.is_set) (λ w. w.outbox) (λ w. w.log)
unfolding device-Expiry is_positive
device-Writable = record {
  patience = 0;
  waits = λ w. 0;
  waits_bound = λ w. omega arith;
  not_ready = λ usec w e. absurd cc;
  at_select = λ usec w. (refl, refl);
  after_select = λ t ticks usec w. omega arith;
}

pub closed :
    (fd : ℤ) (held h : Held)
    → held ≡ with_socket fd h
    → record held { sockets = tail held.sockets } ≡ h
closed fd held h e = ap (λ (k : Held). record k { sockets = tail k.sockets }) e

pub freed :
    (c : ℕ) (held h : Held)
    → held ≡ with_context c h
    → record held { contexts = tail held.contexts } ≡ h
freed c held h e = ap (λ (k : Held). record k { contexts = tail k.contexts }) e

pub ended :
    (s : ℕ) (held h : Held)
    → held ≡ with_session s h
    → record held { sessions = tail held.sessions } ≡ h
ended s held h e = ap (λ (k : Held). record k { sessions = tail k.sessions }) e

unfoldable pub device-Ledger : Ledger device library
unfolding is_positive
device-Ledger = record {
  held = λ w. w.held;
  after_gethostbyname = λ addr w. refl;
  after_connect = λ fd ip port w. refl;
  after_load_verify = λ c bs w. refl;
  after_use_certificate = λ c bs w. refl;
  after_use_private_key = λ c bs w. refl;
  after_set_verify = λ c mode w. refl;
  after_set_fd = λ s fd w. refl;
  after_ssl_connect = λ s w. refl;
  after_socket = λ w. refl;
  after_close = λ fd w h e. closed fd w.held h e;
  after_ctx_new = λ w. refl;
  after_ctx_free = λ c w h e. freed c w.held h e;
  after_ssl_new = λ c w. refl;
  after_ssl_free = λ s w h e. ended s w.held h e;
}
