-- ===== src/Ftp/Written.antt =====
-- writeLine of src/FTPClient.cpp sends the text with every newline as a carriage return and a newline.
use mathlib.Core.Path.{sym, subst}
use fembed_lwip.Common.{
  suc, ℕ, ◌≤◌, ◌≡◌, refl, ◌∙◌, ap, ◌⊎◌, inl, inr, arith, ℤ, pos, negsuc, List, [], ◌∷◌, ◌++◌,
  append_assoc, append-nil, Bool, true, false, ◌&&◌, not, length, leb, ◌==◌, if◌then◌else◌,
}
use fembed_lwip.Ftp.Net.{Net}
use fembed_lwip.Ftp.Lines.{
  bufsiz, newline, carriage_return, writing, put, write_char, write_line_loop, write_line,
}
use fembed_lwip.Ftp.Puts.{Sender, Held, written, written_part, noted_as, put-Held, Held-more}

-- The text as it goes over the network, behind the character `last`.
unfoldable pub network_text : ℕ → List ℕ → List ℕ
network_text last [] = []
network_text last (c ∷ text) =
    let rest = network_text c text in
    if c == newline && not (last == carriage_return) then carriage_return ∷ c ∷ rest else c ∷ rest

module _ {W : Type 0} (net : Net W) (sender : Sender net) where
  -- The characters that `c` stands for behind `last`.
  abbrev chars : ℕ → ℕ → List ℕ
  chars last c =
      if c == newline && not (last == carriage_return) then carriage_return ∷ c ∷ [] else c ∷ []

  second_put :
      (n c : ℕ) (text : List ℕ) (r : Bool × List ℕ × W)
      → Held net sender n text r
      → Held net sender n
          (text ++ c ∷ [])
          (let (ok, held1, w1) = r in if ok then put net c held1 w1 else (false, held1, w1))
  second_put n c text (true, held1, w1) (e, (fits, d)) =
      subst (λ (t : List ℕ). Held net sender n (t ++ c ∷ []) (put net c held1 w1)) (sym e)
        (put-Held net sender n c held1 w1 fits d)
  second_put n c text (false, held1, w1) e = Held-more net sender n text (c ∷ []) held1 w1 e

  write_char-Held :
      (n last c : ℕ) (held : List ℕ) (w : W)
      → length held ≤ bufsiz
      → sender.shorts w ≡ n
      → Held net sender n ((sender.sent w ++ held) ++ chars last c) (write_char net last c held w)
  unfolding write_char
  write_char-Held n last c held w fits d = on (c == newline && not (last == carriage_return))
    where
      on :
          (b : Bool)
          → Held net sender n
              ((sender.sent w ++ held) ++ (if b then carriage_return ∷ c ∷ [] else c ∷ []))
              (if◌then◌else◌ {A = Bool × List ℕ × W} b
                (let (ok, held1, w1) = put net carriage_return held w in
                  if ok then put net c held1 w1 else (false, held1, w1))
                (put net c held w))
      on true =
          subst
            (λ (t : List ℕ). Held net sender n t (
              let (ok, held1, w1) = put net carriage_return held w in
              if ok then put net c held1 w1 else (false, held1, w1)))
            (append_assoc (sender.sent w ++ held) (carriage_return ∷ []) (c ∷ []))
            (second_put n c _ (put net carriage_return held w)
              (put-Held net sender n carriage_return held w fits d))
      on false = put-Held net sender n c held w fits d

  network_text-cons :
      (last c : ℕ) (text : List ℕ)
      → network_text last (c ∷ text) ≡ chars last c ++ network_text c text
  unfolding network_text
  network_text-cons last c text = ground arith

  -- All of the text was sent and no write was short; or the last was, and a part of it from the front.
  abbrev pub SentText : ℕ → List ℕ → Bool × W → Type 0
  SentText n text (true, w) = (sender.sent w ≡ text) × (sender.shorts w ≡ n)
  SentText n text (false, w) =
      ((rest : List ℕ) × (text ≡ sender.sent w ++ rest)) × (sender.shorts w ≡ suc n)

  last_part :
      (n : ℕ) (held : List ℕ) (w : W) (b : Bool)
      → ((net.write held w).0 == length held) ≡ b
      → length held ≤ bufsiz
      → sender.shorts w ≡ n
      → SentText n (sender.sent w ++ held) (b, (net.write held w).1)
  last_part n held w true e h d =
      let all : (net.write held w).0 ≡ length held = ground arith in
      (written net sender held w h all, noted_as net sender true held w n h e d)
  last_part n held w false e h d =
      let (rest, p) = written_part net sender held [] w h in
      (
        (rest, sym (append-nil (sender.sent w ++ held)) ∙ p),
        noted_as net sender false held w n h e d,
      )

  all_sent :
      (n : ℕ) (held : List ℕ) (w : W) (b : Bool)
      → leb (length held) 0 ≡ b
      → length held ≤ bufsiz
      → sender.shorts w ≡ n
      → SentText n (sender.sent w ++ held) (
          if◌then◌else◌ {A = Bool × W} b
            (true, w)
            (let (sent, w1) = net.write held w in (sent == length held, w1)))
  all_sent n [] w true e h d = (sym (append-nil (sender.sent w)), d)
  all_sent n (c ∷ held) w true e h d = ground arith
  all_sent n held w false e h d = last_part n held w ((net.write held w).0 == length held) refl h d

  continued :
      (n c : ℕ) (text front : List ℕ) (r : Bool × List ℕ × W)
      → Held net sender n front r
      → ((held : List ℕ) (w : W)
          → length held ≤ bufsiz
          → sender.shorts w ≡ n
          → SentText n
              ((sender.sent w ++ held) ++ network_text c text)
              (write_line_loop net c text held w))
      → SentText n (front ++ network_text c text) (
          let (ok, held1, w1) = r in
          elim ok [ true ↦ write_line_loop net c text held1 w1 | false ↦ (false, w1) ])
  continued n c text front (true, held1, w1) (e, (fits, d)) k =
      subst
        (λ (t : List ℕ).
          SentText n (t ++ network_text c text) (write_line_loop net c text held1 w1))
        (sym e) (k held1 w1 fits d)
  continued n c text front (false, held1, w1) ((rest, e), d) k = (
    (
      rest ++ network_text c text,
      ap (λ (xs : List ℕ). xs ++ network_text c text) e
          ∙ append_assoc (sender.sent w1) rest (network_text c text),
    ),
    d,
  )

  write_line_loop-SentText :
      (n last : ℕ) (text held : List ℕ) (w : W)
      → length held ≤ bufsiz
      → sender.shorts w ≡ n
      → SentText n
          ((sender.sent w ++ held) ++ network_text last text)
          (write_line_loop net last text held w)
  unfolding write_line_loop network_text
  write_line_loop-SentText n last [] held w fits d =
      subst
        (λ (t : List ℕ). SentText n t (
          if◌then◌else◌ {A = Bool × W} (leb (length held) 0) (true, w)
            (let (sent, w1) = net.write held w in (sent == length held, w1))))
        (sym (append-nil (sender.sent w ++ held)))
        (all_sent n held w (leb (length held) 0) refl fits d)
  write_line_loop-SentText n last (c ∷ text) held w fits d =
      subst (λ (t : List ℕ). SentText n t (write_line_loop net last (c ∷ text) held w))
        (append_assoc (sender.sent w ++ held) (chars last c) (network_text c text)
          ∙ ap (λ (xs : List ℕ). (sender.sent w ++ held) ++ xs)
              (sym (network_text-cons last c text)))
        (continued n c text ((sender.sent w ++ held) ++ chars last c) (write_char net last c held w)
          (write_char-Held n last c held w fits d) (write_line_loop-SentText n c text))

  abbrev Answer : ℕ → ℕ → List ℕ → ℤ × W → Type 0
  Answer n size text (rc, w) =
      ((rc ≡ pos size) × ((sender.sent w ≡ text) × (sender.shorts w ≡ n)))
      ⊎ ((rc ≡ negsuc 0)
          × (((rest : List ℕ) × (text ≡ sender.sent w ++ rest)) × (sender.shorts w ≡ suc n)))

  answered :
      (n size : ℕ) (text : List ℕ) (r : Bool × W)
      → SentText n text r
      → Answer n size text (if r.0 then (pos size, r.1) else (negsuc 0, r.1))
  answered n size text (true, w) e = inl (refl, e)
  answered n size text (false, w) e = inr (refl, e)

  -- writeLine on a connection for writing, where the network takes bytes of whatever is no longer than
  -- `buf`: either no write is short, it returns the length of the text and has sent the text with a
  -- carriage return put before every newline that has none; or exactly one write is short, it returns
  -- -1 and has sent a part of that from the front.
  pub write_line-network_text :
      (text : List ℕ) (w : W)
      → (let (rc, w1) = write_line net writing text w in
          ((rc ≡ pos (length text))
            × ((sender.sent w1 ≡ sender.sent w ++ network_text 0 text)
                × (sender.shorts w1 ≡ sender.shorts w)))
          ⊎ ((rc ≡ negsuc 0)
              × (((rest : List ℕ) × (sender.sent w ++ network_text 0 text ≡ sender.sent w1 ++ rest))
                  × (sender.shorts w1 ≡ suc (sender.shorts w)))))
  unfolding write_line
  write_line-network_text text w =
      answered (sender.shorts w) (length text) (sender.sent w ++ network_text 0 text)
        (write_line_loop net 0 text [] w)
        (subst
          (λ (t : List ℕ).
            SentText (sender.shorts w) (t ++ network_text 0 text) (write_line_loop net 0 text [] w))
          (append-nil (sender.sent w))
          (write_line_loop-SentText (sender.shorts w) 0 text [] w (omega arith) refl))
