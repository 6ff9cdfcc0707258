-- ===== src/Ftp/Puts.antt =====
-- How writeLine of src/FTPClient.cpp fills its buffer and sends it.
use mathlib.Core.Path.{sym}
use fembed_lwip.Common.{
  suc, take-length, append-take-drop, ℕ, ◌≤◌, ◌<◌, ◌≡◌, refl, ◌∙◌, ap, arith, List, [], ◌∷◌, ◌++◌,
  append_assoc, Bool, true, false, length, length-append, take, drop, ◌==◌, if◌then◌else◌,
}
use fembed_lwip.Ftp.Net.{Net}
use fembed_lwip.Ftp.Lines.{bufsiz, put}

-- `write` takes bytes from the front of what it is given, if that is no more than `buf` holds, and tells
-- how many; `sent w` is what it has taken so far, and `shorts w` how often it told another number than
-- it was given.
pub record Sender {W : Type 0} (net : Net W) : Type 0 where
  pub sent : W → List ℕ
  pub shorts : W → ℕ
  pub takes :
      (bs : List ℕ) (w : W)
      → length bs ≤ bufsiz
      → (m : ℕ) × ((m ≤ length bs)
          × ((sent (net.write bs w).1 ≡ sent w ++ take m bs)
              × (((net.write bs w).0 ≡ length bs → m ≡ length bs)
                  × (shorts (net.write bs w).1
                      ≡ (if (net.write bs w).0 == length bs then shorts w else suc (shorts w))))))

module _ {W : Type 0} (net : Net W) (sender : Sender net) where
  -- Of `text`, everything was sent or is held, which fits `buf`, and no write was short; or the last one
  -- was, and a part of `text` was sent.
  abbrev pub Held : ℕ → List ℕ → Bool × List ℕ × W → Type 0
  Held n text (true, held, w) =
      (text ≡ sender.sent w ++ held) × ((length held ≤ bufsiz) × (sender.shorts w ≡ n))
  Held n text (false, held, w) =
      ((rest : List ℕ) × (text ≡ sender.sent w ++ rest)) × (sender.shorts w ≡ suc n)

  -- A write of what is held, whole or short.
  pub written :
      (held : List ℕ) (w : W)
      → length held ≤ bufsiz
      → (net.write held w).0 ≡ length held
      → sender.sent (net.write held w).1 ≡ sender.sent w ++ held
  written held w fits e =
      let (m, (few, (after, (all, noted)))) = sender.takes held w fits in
      after
      ∙ (ap (λ (k : ℕ). sender.sent w ++ take k held) (all e)
          ∙ ap (λ (xs : List ℕ). sender.sent w ++ xs) (take-length held))

  pub written_part :
      (held more : List ℕ) (w : W)
      → length held ≤ bufsiz
      → (rest : List ℕ) × ((sender.sent w ++ held) ++ more
          ≡ sender.sent (net.write held w).1 ++ rest)
  written_part held more w fits =
      let (m, (few, (after, (all, noted)))) = sender.takes held w fits in
      (
        drop m held ++ more,
        sym (
            ap (λ (xs : List ℕ). xs ++ (drop m held ++ more)) after
            ∙ (append_assoc (sender.sent w) (take m held) (drop m held ++ more)
                ∙ (ap (λ (xs : List ℕ). sender.sent w ++ xs)
                      (sym (append_assoc (take m held) (drop m held) more))
                    ∙ (ap (λ (xs : List ℕ). sender.sent w ++ (xs ++ more)) (append-take-drop m held)
                        ∙ sym (append_assoc (sender.sent w) held more))))),
      )

  -- What a write notes.
  pub noted_as :
      (b : Bool) (held : List ℕ) (w : W) (n : ℕ)
      → length held ≤ bufsiz
      → ((net.write held w).0 == length held) ≡ b
      → sender.shorts w ≡ n
      → sender.shorts (net.write held w).1 ≡ (if b then n else suc n)
  noted_as b held w n fits e d =
      let (m, (few, (after, (all, noted)))) = sender.takes held w fits in
      noted
      ∙ (ap (λ (t : Bool). if t then sender.shorts w else suc (sender.shorts w)) e
          ∙ ap (λ (k : ℕ). if b then k else suc k) d)

  flushed :
      (n c : ℕ) (held : List ℕ) (w : W) (b : Bool)
      → ((net.write held w).0 == length held) ≡ b
      → length held ≤ bufsiz
      → sender.shorts w ≡ n
      → Held n ((sender.sent w ++ held) ++ c ∷ []) (
          if◌then◌else◌ {A = Bool × List ℕ × W} b
            (true, c ∷ [], (net.write held w).1)
            (false, held, (net.write held w).1))
  flushed n c held w true e h d =
      let all : (net.write held w).0 ≡ length held = ground arith in
      (
        ap (λ (xs : List ℕ). xs ++ c ∷ []) (sym (written held w h all)),
        (omega arith, noted_as true held w n h e d),
      )
  flushed n c held w false e h d = (written_part held (c ∷ []) w h, noted_as false held w n h e d)

  pub put-Held :
      (n c : ℕ) (held : List ℕ) (w : W)
      → length held ≤ bufsiz
      → sender.shorts w ≡ n
      → Held n ((sender.sent w ++ held) ++ c ∷ []) (put net c held w)
  unfolding put
  put-Held n c held w fits d = on (length held == bufsiz) refl
    where
      on :
          (b : Bool)
          → (length held == bufsiz) ≡ b
          → Held n ((sender.sent w ++ held) ++ c ∷ []) (
              if◌then◌else◌ {A = Bool × List ℕ × W} b
                (let (sent, w1) = net.write held w in
                  if sent == bufsiz then (true, c ∷ [], w1) else (false, held, w1))
                (true, held ++ c ∷ [], w))
      on true e =
          let full : length held ≡ bufsiz = ground arith in
          flushed n c held w ((net.write held w).0 == bufsiz)
            (ap (λ (k : ℕ). (net.write held w).0 == k) full) fits d
      on false e =
          let short : length held < bufsiz = ground (arith, fits) in
          (
            append_assoc (sender.sent w) held (c ∷ []),
            (omega (arith, short, length-append held (c ∷ [])), d),
          )

  -- More text behind what was sent in part.
  pub Held-more :
      (n : ℕ) (text more : List ℕ) (held : List ℕ) (w : W)
      → Held n text (false, held, w)
      → Held n (text ++ more) (false, held, w)
  Held-more n text more held w ((rest, e), d) = (
    (rest ++ more, ap (λ (xs : List ℕ). xs ++ more) e ∙ append_assoc (sender.sent w) rest more),
    d,
  )
