-- ===== src/FreeRtos/Resources.antt =====
-- NetworkConnectSSL of paho/MQTTClient-C/src/FreeRTOS/MQTTFreeRTOS.c frees what it made.
use fembed_lwip.Common.{
  ℕ, ◌≡◌, refl, ◌∙◌, ap, ◌⊎◌, inl, inr, arith, ℤ, pos, negsuc, List, Bool, true, false, not, Option,
  none, some, if◌then◌else◌, is_neg, eq_ℤ,
}
use fembed_lwip.FreeRtos.Os.{Os, OpenSsl}
use fembed_lwip.FreeRtos.Socket.{is_positive}
use fembed_lwip.FreeRtos.SslConnect.{
  SslNetwork, Credentials, load_authority, load_own, start_ssl, open_ssl, configure_ssl,
  network_connect_ssl,
}
use fembed_lwip.FreeRtos.Ledger.{
  Held, with_socket, with_context, with_session, with_failure, noted, made_with, Ledger,
}

module _ {T W : Type 0} (os : Os T W) (ssl : OpenSsl W) (ledger : Ledger os ssl) where
  -- Either one call failed and nothing more is open than in `h`; or none did, and the connection is open,
  -- with its context and its session.
  abbrev pub Balanced : Held → ℤ × SslNetwork × W → Type 0
  Balanced h (rc, n, w) =
      (ledger.held w ≡ with_failure h)
      ⊎ ((is_positive rc ≡ true)
          × ((c : ℕ) × ((s : ℕ) × ((n.ctx ≡ some c)
                  × ((n.ssl ≡ some s)
                      × (ledger.held w
                          ≡ with_session s (with_socket n.my_socket (with_context c h))))))))

  either :
      (P : ℤ × SslNetwork × W → Type 0) (t : Bool) (a b : ℤ × SslNetwork × W)
      → (t ≡ true → P a)
      → (t ≡ false → P b)
      → P (if t then a else b)
  either P true a b h k = h refl
  either P false a b h k = k refl

  connected :
      (c : ℕ) (fd rc : ℤ) (n : SslNetwork) (made : Option ℕ) (w : W) (h : Held)
      → n.ctx ≡ some c
      → n.my_socket ≡ fd
      → n.ssl ≡ made
      → ledger.held w ≡ made_with with_session made (with_socket fd (with_context c h))
      → Balanced h (elim made [
        | none ↦ (rc, n, ssl.ctx_free c (os.close fd w))
        | some s ↦
            let (rc1, w2) = ssl.ssl_connect s (ssl.set_fd s fd w) in
            if is_positive rc1
            then (rc1, n, w2)
            else (rc1, n, ssl.ctx_free c (os.close fd (ssl.ssl_free s w2)))
      ])
  connected c fd rc n none w h a b d e =
      inl (ledger.after_ctx_free c _ (with_failure h) (ledger.after_close fd w _ e))
  connected c fd rc n (some s) w h a b d e =
      let (rc1, w2) = ssl.ssl_connect s (ssl.set_fd s fd w) in
      let k : ledger.held w2
          ≡ noted (not (is_positive rc1)) (with_session s (with_socket fd (with_context c h))) =
        ledger.after_ssl_connect s (ssl.set_fd s fd w)
        ∙ ap (noted (not (is_positive rc1))) (ledger.after_set_fd s fd w ∙ e) in
      on (is_positive rc1) refl k
    where
      on :
          (t : Bool)
          → is_positive (ssl.ssl_connect s (ssl.set_fd s fd w)).0 ≡ t
          → ledger.held (ssl.ssl_connect s (ssl.set_fd s fd w)).1
            ≡ noted (not t) (with_session s (with_socket fd (with_context c h)))
          → Balanced h (
              let (rc1, w2) = ssl.ssl_connect s (ssl.set_fd s fd w) in
              if t
              then (rc1, n, w2)
              else (rc1, n, ssl.ctx_free c (os.close fd (ssl.ssl_free s w2))))
      on true p k = inr (p, (c, (s, (a, (d, rw b k)))))
      on false p k = inl (
          ledger.after_ctx_free c _ (with_failure h)
            (ledger.after_close fd _ _ (ledger.after_ssl_free s _ _ k)))

  start_ssl-Balanced :
      (c : ℕ) (fd rc : ℤ) (n : SslNetwork) (w : W) (h : Held)
      → n.ctx ≡ some c
      → n.my_socket ≡ fd
      → ledger.held w ≡ with_socket fd (with_context c h)
      → Balanced h (start_ssl os ssl c fd rc n w)
  unfolding start_ssl
  start_ssl-Balanced c fd rc n w h a b e =
      connected c fd rc (record n { ssl = (ssl.ssl_new c w).0 }) (ssl.ssl_new c w).0
        (ssl.ssl_new c w).1 h a b refl
        (ledger.after_ssl_new c w ∙ ap (made_with with_session (ssl.ssl_new c w).0) e)

  connecting :
      (c ip port : ℕ) (fd rc : ℤ) (n : SslNetwork) (w : W) (h : Held)
      → n.ctx ≡ some c
      → n.my_socket ≡ fd
      → ledger.held w ≡ with_socket fd (with_context c h)
      → Balanced h (
          let (rc1, w2) = os.connect fd ip port w in
          if is_neg rc1
          then (rc1, n, ssl.ctx_free c (os.close fd w2))
          else start_ssl os ssl c fd rc1 n w2)
  connecting c ip port fd rc n w h a b e =
      on (is_neg (os.connect fd ip port w).0)
        (ledger.after_connect fd ip port w ∙ ap (noted (is_neg (os.connect fd ip port w).0)) e)
    where
      on :
          (t : Bool)
          → ledger.held (os.connect fd ip port w).1 ≡ noted t (with_socket fd (with_context c h))
          → Balanced h (
              let (rc1, w2) = os.connect fd ip port w in
              if t
              then (rc1, n, ssl.ctx_free c (os.close fd w2))
              else start_ssl os ssl c fd rc1 n w2)
      on true k = inl (ledger.after_ctx_free c _ (with_failure h) (ledger.after_close fd _ _ k))
      on false k = start_ssl-Balanced c fd _ n _ h a b k

  open_ssl-Balanced :
      (c ip port : ℕ) (rc : ℤ) (n : SslNetwork) (w : W) (h : Held)
      → n.ctx ≡ some c
      → ledger.held w ≡ with_context c h
      → Balanced h (open_ssl os ssl c ip port rc n w)
  unfolding open_ssl
  open_ssl-Balanced c ip port rc n w h a e =
      let (fd, w1) = os.socket w in
      on (is_neg fd) (
        ledger.after_socket w
        ∙ ap (λ (z : Held). if is_neg fd then with_failure z else with_socket fd z) e)
    where
      on :
          (t : Bool)
          → ledger.held (os.socket w).1 ≡ (
              if t
              then with_failure (with_context c h)
              else with_socket (os.socket w).0 (with_context c h))
          → Balanced h (
              let (fd, w1) = os.socket w in
              let n1 = record n { my_socket = fd } in
              if t
              then (rc, n1, ssl.ctx_free c w1)
              else (let (rc1, w2) = os.connect fd ip port w1 in
                  if is_neg rc1
                  then (rc1, n1, ssl.ctx_free c (os.close fd w2))
                  else start_ssl os ssl c fd rc1 n1 w2))
      on true k = inl (ledger.after_ctx_free c _ (with_failure h) k)
      on false k =
          let (fd, w1) = os.socket w in
          connecting c ip port fd rc (record n { my_socket = fd }) w1 h a refl k

  load_authority-held :
      (c : ℕ) (cacrt : Option (List ℕ)) (rc : ℤ) (w : W)
      → ledger.held (load_authority os ssl c cacrt rc w).2
        ≡ noted (not (load_authority os ssl c cacrt rc w).0) (ledger.held w)
  unfolding load_authority
  load_authority-held c none rc w = refl
  load_authority-held c (some bs) rc w = ledger.after_load_verify c bs w

  noted_twice : (b : Bool) (h : Held) → noted b h ≡ noted (not (not b)) h
  noted_twice true h = refl
  noted_twice false h = refl

  load_own-held :
      (c : ℕ) (cert key : Option (List ℕ)) (rc : ℤ) (w : W)
      → ledger.held (load_own os ssl c cert key rc w).2
        ≡ noted (not (load_own os ssl c cert key rc w).0) (ledger.held w)
  unfolding load_own
  load_own-held c (some cert) (some key) rc w =
      on (eq_ℤ (ssl.use_certificate c cert w).0 (pos 0)) (ledger.after_use_certificate c cert w)
    where
      on :
          (t : Bool)
          → ledger.held (ssl.use_certificate c cert w).1 ≡ noted t (ledger.held w)
          → (let done =
                if◌then◌else◌ {A = Bool × ℤ × W} t
                  (false, (ssl.use_certificate c cert w).0, (ssl.use_certificate c cert w).1)
                  (let (rc2, w2) = ssl.use_private_key c key (ssl.use_certificate c cert w).1 in
                    (not (eq_ℤ rc2 (pos 0)), rc2, w2)) in
              ledger.held done.2 ≡ noted (not done.0) (ledger.held w))
      on true k = k
      on false k =
          let w1 = (ssl.use_certificate c cert w).1 in
          let refused = eq_ℤ (ssl.use_private_key c key w1).0 (pos 0) in
          ledger.after_use_private_key c key w1
          ∙ (ap (noted refused) k ∙ noted_twice refused (ledger.held w))
  load_own-held c none key rc w = refl
  load_own-held c (some cert) none rc w = refl

  configure_ssl-Balanced :
      (c ip port : ℕ) (credentials : Credentials) (mode : Option ℕ) (n : SslNetwork) (w : W)
      (h : Held)
      → n.ctx ≡ some c
      → ledger.held w ≡ with_context c h
      → Balanced h (configure_ssl os ssl c ip port credentials mode n w)
  unfolding configure_ssl
  configure_ssl-Balanced c ip port credentials mode n w h a e =
      let (loaded, rc, w1) = load_authority os ssl c credentials.cacrt (negsuc 0) w in
      let k : (b : Bool) → not loaded ≡ b → ledger.held w1 ≡ noted b (with_context c h) = λ b q.
        load_authority-held c credentials.cacrt (negsuc 0) w
        ∙ (ap (noted (not loaded)) e ∙ ap (λ (t : Bool). noted t (with_context c h)) q) in
      let (own, rc1, w2) = load_own os ssl c credentials.cert credentials.key rc w1 in
      let k2 : not loaded ≡ false
          → (b : Bool) → not own ≡ b
          → ledger.held w2 ≡ noted b (with_context c h) =
        λ p b q.
          load_own-held c credentials.cert credentials.key rc w1
          ∙ (ap (noted (not own)) (k false p) ∙ ap (λ (t : Bool). noted t (with_context c h)) q) in
      let verify : Option ℕ = elim credentials.cacrt [ none ↦ none | some _ ↦ mode ] in
      let last = open_ssl os ssl c ip port rc1 n (ssl.set_verify c verify w2) in
      let second : ℤ × SslNetwork × W = (rc1, n, ssl.ctx_free c w2) in
      either (Balanced h) (not loaded) (rc, n, ssl.ctx_free c w1) (if not own then second else last)
        (λ q. inl (ledger.after_ctx_free c w1 (with_failure h) (k true q)))
        (λ p.
          either (Balanced h) (not own) second last
            (λ q. inl (ledger.after_ctx_free c w2 (with_failure h) (k2 p true q)))
            (λ q.
              open_ssl-Balanced c ip port rc1 n (ssl.set_verify c verify w2) h a
                (ledger.after_set_verify c verify w2 ∙ k2 p false q)))

  -- NetworkConnectSSL, on every path. Either exactly one of the calls that resolve the name, make the
  -- context, load the certificates and the key, make and connect the socket and make and connect the
  -- session has failed, and exactly what was open before is open; or none has failed, the result is
  -- positive and exactly the socket, the context and the session of the network are open besides.
  pub network_connect_ssl-Balanced :
      (addr : List ℕ) (port : ℕ) (credentials : Credentials) (mode : Option ℕ) (n : SslNetwork)
      (w : W)
      → Balanced (ledger.held w) (network_connect_ssl os ssl addr port credentials mode n w)
  unfolding network_connect_ssl
  network_connect_ssl-Balanced addr port credentials mode n w =
      resolved (os.gethostbyname addr w).0 (os.gethostbyname addr w).1
        (ledger.after_gethostbyname addr w)
    where
      created :
          (ctx : Option ℕ) (ip : ℕ) (n1 : SslNetwork) (w2 : W)
          → n1.ctx ≡ ctx
          → ledger.held w2 ≡ made_with with_context ctx (ledger.held w)
          → Balanced (ledger.held w) (elim ctx [
            | none ↦ (negsuc 0, n1, w2)
            | some h ↦ configure_ssl os ssl h ip port credentials mode n1 w2
          ])
      created none ip n1 w2 a e = inl e
      created (some h) ip n1 w2 a e =
          configure_ssl-Balanced h ip port credentials mode n1 w2 (ledger.held w) a e

      resolved :
          (host : Option ℕ) (w1 : W)
          → ledger.held w1 ≡ made_with (λ _ h. h) host (ledger.held w)
          → Balanced (ledger.held w) (elim host [
            | none ↦ (negsuc 0, n, w1)
            | some ip ↦
                let (ctx, w2) = ssl.ctx_new w1 in
                let n1 = record n { ctx = ctx } in
                elim ctx [
                  | none ↦ (negsuc 0, n1, w2)
                  | some h ↦ configure_ssl os ssl h ip port credentials mode n1 w2
                ]
          ])
      resolved none w1 e = inl e
      resolved (some ip) w1 e =
          let (ctx, w2) = ssl.ctx_new w1 in
          created ctx ip (record n { ctx = ctx }) w2 refl
            (ledger.after_ctx_new w1 ∙ ap (made_with with_context ctx) e)

module _ {T W : Type 0} (os : Os T W) (ssl : OpenSsl W) where
  -- With a certificate of the authority that is loaded and no certificate of its own, NetworkConnectSSL
  -- returns 1 where no socket can be made: the value of a connection that was made.
  pub network_connect_ssl_misreports :
      (addr cacrt : List ℕ) (key : Option (List ℕ)) (port ip c k : ℕ) (mode : Option ℕ)
      (n : SslNetwork) (w w1 w2 w3 : W)
      → os.gethostbyname addr w ≡ (some ip, w1)
      → ssl.ctx_new w1 ≡ (some c, w2)
      → ssl.load_verify c cacrt w2 ≡ (pos 1, w3)
      → (os.socket (ssl.set_verify c mode w3)).0 ≡ negsuc k
      → (network_connect_ssl os ssl addr port
          (record { cacrt = some cacrt; cert = none; key = key })
          mode
          n
          w).0
        ≡ pos 1
  unfolding network_connect_ssl configure_ssl load_authority load_own open_ssl
  network_connect_ssl_misreports addr cacrt key port ip c k mode n w w1 w2 w3 h1 h2 h3 h4 =
      ground arith
