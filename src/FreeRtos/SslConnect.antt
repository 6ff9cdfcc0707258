-- ===== src/FreeRtos/SslConnect.antt =====
-- NetworkInitSSL, NetworkConnectSSL and esp_ssl_disconnect of
-- paho/MQTTClient-C/src/FreeRTOS/MQTTFreeRTOS.c.
use fembed_lwip.Common.{
  ℕ, ℤ, pos, negsuc, List, Bool, true, false, not, Option, none, some, if◌then◌else◌, is_neg, eq_ℤ,
}
use fembed_lwip.FreeRtos.Os.{Os, OpenSsl}
use fembed_lwip.FreeRtos.Socket.{is_positive}

-- struct Network
pub record SslNetwork : Type 0 where
  pub my_socket : ℤ
  pub read_count : ℕ
  pub ctx : Option ℕ
  pub ssl : Option ℕ

-- ssl_ca_crt_key_t, each pointer with the bytes that its length tells.
pub record Credentials : Type 0 where
  pub cacrt : Option (List ℕ)
  pub cert : Option (List ℕ)
  pub key : Option (List ℕ)

unfoldable pub network_init_ssl : SslNetwork
network_init_ssl = record { my_socket = pos 0; read_count = 0; ctx = none; ssl = none }

module _ {T W : Type 0} (os : Os T W) (ssl : OpenSsl W) where
  -- `n->ssl` and `n->ctx` are NULL where nothing was connected: OpenSSL frees NULL by doing nothing.
  abbrev free_with : (ℕ → W → W) → Option ℕ → W → W
  free_with free none w = w
  free_with free (some h) w = free h w

  unfoldable pub esp_ssl_disconnect : SslNetwork → W → SslNetwork × W
  esp_ssl_disconnect n w =
      let w1 = os.close n.my_socket w in
      let w2 = free_with ssl.ssl_free n.ssl w1 in
      (record n { read_count = 0 }, free_with ssl.ctx_free n.ctx w2)

  -- The certificate of the authority; the value of `retVal`, which stays where there is none.
  unfoldable pub load_authority : ℕ → Option (List ℕ) → ℤ → W → Bool × ℤ × W
  load_authority ctx none rc w = (true, rc, w)
  load_authority ctx (some cacrt) rc w =
      let (rc1, w1) = ssl.load_verify ctx cacrt w in (eq_ℤ rc1 (pos 1), rc1, w1)

  -- The certificate and the key, where both are given.
  unfoldable pub load_own : ℕ → Option (List ℕ) → Option (List ℕ) → ℤ → W → Bool × ℤ × W
  load_own ctx (some cert) (some key) rc w =
      let (rc1, w1) = ssl.use_certificate ctx cert w in
      if eq_ℤ rc1 (pos 0)
      then (false, rc1, w1)
      else (let (rc2, w2) = ssl.use_private_key ctx key w1 in (not (eq_ℤ rc2 (pos 0)), rc2, w2))
  load_own ctx none key rc w = (true, rc, w)
  load_own ctx (some cert) none rc w = (true, rc, w)

  -- From the connected socket on, with the labels `exit3` and `exit2` behind it.
  unfoldable pub start_ssl : ℕ → ℤ → ℤ → SslNetwork → W → ℤ × SslNetwork × W
  start_ssl ctx fd rc n w =
      let (made, w1) = ssl.ssl_new ctx w in
      let n1 = record n { ssl = made } in
      elim made [
        | none ↦ (rc, n1, ssl.ctx_free ctx (os.close fd w1))
        | some h ↦
            let (rc1, w2) = ssl.ssl_connect h (ssl.set_fd h fd w1) in
            if is_positive rc1
            then (rc1, n1, w2)
            else (rc1, n1, ssl.ctx_free ctx (os.close fd (ssl.ssl_free h w2)))
      ]

  -- From `socket` on, with the label `exit1` behind it.
  unfoldable pub open_ssl : ℕ → ℕ → ℕ → ℤ → SslNetwork → W → ℤ × SslNetwork × W
  open_ssl ctx ip port rc n w =
      let (fd, w1) = os.socket w in
      let n1 = record n { my_socket = fd } in
      if is_neg fd
      then (rc, n1, ssl.ctx_free ctx w1)
      else (let (rc1, w2) = os.connect fd ip port w1 in
          if is_neg rc1
          then (rc1, n1, ssl.ctx_free ctx (os.close fd w2))
          else start_ssl ctx fd rc1 n1 w2)

  -- With the context; `mode` is `none` for SSL_VERIFY_NONE.
  unfoldable pub configure_ssl :
      ℕ → ℕ → ℕ → Credentials → Option ℕ → SslNetwork → W → ℤ × SslNetwork × W
  configure_ssl ctx ip port credentials mode n w =
      let (loaded, rc, w1) = load_authority ctx credentials.cacrt (negsuc 0) w in
      if not loaded
      then (rc, n, ssl.ctx_free ctx w1)
      else (let (own, rc1, w2) = load_own ctx credentials.cert credentials.key rc w1 in
          if not own
          then (rc1, n, ssl.ctx_free ctx w2)
          else (let w3 =
                ssl.set_verify ctx (elim credentials.cacrt [ none ↦ none | some _ ↦ mode ]) w2 in
              open_ssl ctx ip port rc1 n w3))

  -- `method` and `frag_len` have no part here: the one is handed to `ctx_new`, the other not used.
  unfoldable pub network_connect_ssl :
      List ℕ → ℕ → Credentials → Option ℕ → SslNetwork → W → ℤ × SslNetwork × W
  network_connect_ssl addr port credentials mode n w =
      let (host, w1) = os.gethostbyname addr w in
      elim host [
        | none ↦ (negsuc 0, n, w1)
        | some ip ↦
            let (ctx, w2) = ssl.ctx_new w1 in
            let n1 = record n { ctx = ctx } in
            elim ctx [
              | none ↦ (negsuc 0, n1, w2)
              | some h ↦ configure_ssl h ip port credentials mode n1 w2
            ]
      ]
