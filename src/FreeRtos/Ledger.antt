-- ===== src/FreeRtos/Ledger.antt =====
-- What the calls of paho/MQTTClient-C/src/FreeRTOS/MQTTFreeRTOS.c open and close.
use fembed_lwip.Common.{
  ℕ, suc, ◌≡◌, ℤ, pos, List, ◌∷◌, Bool, true, false, not, Option, none, some, if◌then◌else◌, is_neg,
  eq_ℤ,
}
use fembed_lwip.FreeRtos.Os.{Os, OpenSsl}
use fembed_lwip.FreeRtos.Socket.{is_positive}

-- What is open: sockets, contexts and sessions, the last one first; and how many of the calls that make
-- or prepare a connection have failed.
pub record Held : Type 0 where
  pub sockets : List ℤ
  pub contexts : List ℕ
  pub sessions : List ℕ
  pub failures : ℕ

abbrev pub with_socket : ℤ → Held → Held
with_socket fd h = record h { sockets = fd ∷ h.sockets }

abbrev pub with_context : ℕ → Held → Held
with_context c h = record h { contexts = c ∷ h.contexts }

abbrev pub with_session : ℕ → Held → Held
with_session s h = record h { sessions = s ∷ h.sessions }

abbrev pub with_failure : Held → Held
with_failure h = record h { failures = suc h.failures }

-- After a call that failed or not.
abbrev pub noted : Bool → Held → Held
noted true h = with_failure h
noted false h = h

abbrev pub made_with : (ℕ → Held → Held) → Option ℕ → Held → Held
made_with f none h = with_failure h
made_with f (some a) h = f a h

-- What the calls open and close, and which results are failures.
pub record Ledger {T W : Type 0} (os : Os T W) (ssl : OpenSsl W) : Type 0 where
  pub held : W → Held
  pub after_gethostbyname :
      (addr : List ℕ) (w : W)
      → held (os.gethostbyname addr w).1 ≡ made_with (λ _ h. h) (os.gethostbyname addr w).0 (held w)
  pub after_connect :
      (fd : ℤ) (ip port : ℕ) (w : W)
      → held (os.connect fd ip port w).1 ≡ noted (is_neg (os.connect fd ip port w).0) (held w)
  pub after_load_verify :
      (c : ℕ) (bs : List ℕ) (w : W)
      → held (ssl.load_verify c bs w).1
        ≡ noted (not (eq_ℤ (ssl.load_verify c bs w).0 (pos 1))) (held w)
  pub after_use_certificate :
      (c : ℕ) (bs : List ℕ) (w : W)
      → held (ssl.use_certificate c bs w).1
        ≡ noted (eq_ℤ (ssl.use_certificate c bs w).0 (pos 0)) (held w)
  pub after_use_private_key :
      (c : ℕ) (bs : List ℕ) (w : W)
      → held (ssl.use_private_key c bs w).1
        ≡ noted (eq_ℤ (ssl.use_private_key c bs w).0 (pos 0)) (held w)
  pub after_set_verify : (c : ℕ) (mode : Option ℕ) (w : W) → held (ssl.set_verify c mode w) ≡ held w
  pub after_set_fd : (s : ℕ) (fd : ℤ) (w : W) → held (ssl.set_fd s fd w) ≡ held w
  pub after_ssl_connect :
      (s : ℕ) (w : W)
      → held (ssl.ssl_connect s w).1 ≡ noted (not (is_positive (ssl.ssl_connect s w).0)) (held w)
  pub after_socket :
      (w : W)
      → held (os.socket w).1 ≡ (
          if is_neg (os.socket w).0
          then with_failure (held w)
          else with_socket (os.socket w).0 (held w))
  pub after_close :
      (fd : ℤ) (w : W) (h : Held) → held w ≡ with_socket fd h → held (os.close fd w) ≡ h
  pub after_ctx_new :
      (w : W) → held (ssl.ctx_new w).1 ≡ made_with with_context (ssl.ctx_new w).0 (held w)
  pub after_ctx_free :
      (c : ℕ) (w : W) (h : Held) → held w ≡ with_context c h → held (ssl.ctx_free c w) ≡ h
  pub after_ssl_new :
      (c : ℕ) (w : W)
      → held (ssl.ssl_new c w).1 ≡ made_with with_session (ssl.ssl_new c w).0 (held w)
  pub after_ssl_free :
      (s : ℕ) (w : W) (h : Held) → held w ≡ with_session s h → held (ssl.ssl_free s w) ≡ h
