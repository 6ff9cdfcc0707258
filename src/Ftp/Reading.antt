-- ===== src/Ftp/Reading.antt =====
-- readLine of src/FTPClient.cpp reads one line, however it arrives.
use mathlib.Core.Path.{sym, subst}
use fembed_lwip.Common.{
  take, take-append, replicate, ℕ, zero, suc, ◌+◌, ◌-◌, ◌≤◌, ◌<◌, ◌≡◌, ◌≢◌, refl, ◌∙◌, ap, ◌⊎◌, inl,
  inr, arith, pos, List, [], ◌∷◌, ◌++◌, append_assoc, All, Bool, true, false, length, length-append,
  leb, ltb, lt→ltb, le→leb, ◌==◌, if◌then◌else◌,
}
use fembed_lwip.Wire.Source.{bytes}
use fembed_lwip.Client.Run.{Run, returned, fault}
use fembed_lwip.Ftp.Net.{Net}
use fembed_lwip.Ftp.Lines.{
  bufsiz, newline, carriage_return, control, split_line, strip_line, Line, end_line, read_line_loop,
  read_line,
}
use fembed_lwip.Ftp.Cuts.{
  store-filled, store-filled_full, append_split, split_line-whole, split_line-newline,
  strip_line-crlf, enough, All-both, All-end,
}

-- The answers of the server as they arrive: `pending w` is still to be read, `read` gives some of it
-- from the front, less than fills the buffer.
pub record Feed {W : Type 0} (net : Net W) : Type 0 where
  pub pending : W → List ℕ
  pub reads :
      (w : W)
      → (bs : List ℕ) × (((net.read bufsiz w).0 ≡ bytes bs)
          × ((length bs < bufsiz)
              × ((pending w ≡ bs ++ pending (net.read bufsiz w).1)
                  × ((pending w ≡ []) ⊎ (0 < length bs)))))

module _ {W : Type 0} (net : Net W) (feed : Feed net) where
  -- The call returned the text `line` and a newline, and what is left is `rest`.
  abbrev pub GotLine : List ℕ → List ℕ → Run (Line W) → Type 0
  GotLine line rest m =
      (unread : List ℕ) × ((w : W) × ((m
            ≡ returned (pos (length line + 1), line ++ newline ∷ 0 ∷ 0 ∷ [], unread, w))
          × (unread ++ feed.pending w ≡ rest)))

  -- The newline is among the bytes that were read.
  newline_read :
      (rounds max : ℕ) (eof : Bool) (line out l more : List ℕ) (w : W)
      → out ++ l ≡ line ++ carriage_return ∷ []
      → All (λ c. c ≢ newline) l
      → length l + 1 < max
      → read_line_loop net (suc rounds) eof max out (l ++ newline ∷ more) w
        ≡ returned (pos (length line + 1), line ++ newline ∷ 0 ∷ 0 ∷ [], more, w)
  unfolding read_line_loop end_line
  newline_read rounds max eof line out l more w e h k =
      let unread : List ℕ = l ++ newline ∷ more in
      let n : ℕ = if leb (length unread) max then length unread else max - 1 in
      let long : length l < n =
        enough (length l) (length more) (length unread) max (length-append l (newline ∷ more)) k in
      let cut : split_line n unread ≡ (l ++ newline ∷ [], true, more) =
        split_line-newline n l more h long in
      let room : ltb (length (l ++ newline ∷ [])) max ≡ true =
        lt→ltb _ _ (omega (arith, length-append l (newline ∷ []), k)) in
      let text : out ++ (l ++ newline ∷ []) ≡ line ++ carriage_return ∷ newline ∷ [] =
        sym (append_assoc out l (newline ∷ []))
        ∙ (ap (λ (t : List ℕ). t ++ newline ∷ []) e
            ∙ append_assoc line (carriage_return ∷ []) (newline ∷ [])) in
      let stripped : strip_line (out ++ (l ++ newline ∷ []))
          ≡ returned (line ++ newline ∷ 0 ∷ 0 ∷ [], length line + 1) =
        ap strip_line text ∙ strip_line-crlf line in
      ground (arith, cut, room, stripped)

  -- The bytes that were read end before the newline.
  newline_ahead :
      (rounds max : ℕ) (eof : Bool) (out unread l : List ℕ) (w : W) (bs : List ℕ)
      → All (λ c. c ≢ newline) unread
      → length unread + length l + 2 ≤ max
      → eof ≡ false
      → (net.read bufsiz w).0 ≡ bytes bs
      → length bs < bufsiz
      → read_line_loop net (suc rounds) eof max out unread w
        ≡ read_line_loop net rounds
            (leb (length bs) 0)
            (max - length unread)
            (out ++ unread)
            bs
            (net.read bufsiz w).1
  unfolding read_line_loop
  newline_ahead rounds max eof out unread l w bs h k f r few =
      let fits : leb (length unread) max ≡ true = le→leb _ _ (omega arith) in
      let cut : split_line (length unread) unread ≡ (unread, false, []) =
        split_line-whole unread h in
      let room : ltb (length unread) max ≡ true = lt→ltb _ _ (omega arith) in
      let more : (max - length unread == 1) ≡ false = ground arith in
      let rest : take (length bs) (bs ++ 0 ∷ replicate (bufsiz - length bs - 1) 0) ≡ bs =
        take-append bs (0 ∷ replicate (bufsiz - length bs - 1) 0) in
      ground (arith, fits, cut, room, more, store-filled bs few, rest)

  some_bytes :
      (more rest bs : List ℕ) (w : W)
      → feed.pending w ≡ more ++ newline ∷ rest
      → (feed.pending w ≡ []) ⊎ (0 < length bs)
      → 0 < length bs
  some_bytes more rest bs w b (inl e) =
      absurd (omega (arith, ap length (sym e ∙ b), length-append more (newline ∷ rest)))
  some_bytes more rest bs w b (inr h) = h

  read_line_loop-GotLine :
      (rounds max : ℕ) (eof : Bool) (out unread l line rest : List ℕ) (w : W)
      → out ++ l ≡ line ++ carriage_return ∷ []
      → All (λ c. c ≢ newline) l
      → unread ++ feed.pending w ≡ l ++ newline ∷ rest
      → length l + 1 < max
      → 0 < rounds
      → length l + 1 < rounds + length unread
      → eof ≡ false
      → GotLine line rest (read_line_loop net rounds eof max out unread w)
  read_line_loop-GotLine zero max eof out unread l line rest w t h e k p q f = absurd (omega arith)
  read_line_loop-GotLine (suc rounds) max eof out unread l line rest w t h e k p q f =
      elim (append_split unread (feed.pending w) l newline rest e) [
        | inr (more, (a, b)) ↦ (
          more,
          (
            w,
            (
              subst
                  (λ (u : List ℕ).
                    read_line_loop net (suc rounds) eof max out u w
                    ≡ returned (pos (length line + 1), line ++ newline ∷ 0 ∷ 0 ∷ [], more, w))
                  (sym a) (newline_read rounds max eof line out l more w t h k),
              sym b,
            ),
          ),
        )
        | inl (more, (a, b)) ↦
            let (bs, (got, (few, (front, some_left)))) = feed.reads w in
            let parts = All-both unread more (subst (All (λ c. c ≢ newline)) a h) in
            let size : length l ≡ length unread + length more =
              ap length a ∙ length-append unread more in
            let left : 0 < length bs = some_bytes more rest bs w b some_left in
            subst (GotLine line rest)
              (sym (
                newline_ahead rounds max eof out unread more w bs (parts.0) (omega (arith, k, size))
                  f got few))
              (read_line_loop-GotLine rounds (max - length unread) (leb (length bs) 0)
                (out ++ unread) bs more line rest (net.read bufsiz w).1
                (append_assoc out unread more ∙ (ap (λ (u : List ℕ). out ++ u) (sym a) ∙ t))
                (parts.1) (sym front ∙ b) (omega (arith, k, size)) (omega (arith, q, size))
                (omega (arith, q, size, left)) (ground (arith, left)))
      ]

  -- readLine on the control connection, given a buffer with three bytes more than the line: where what
  -- was read before and what arrives begin with a line of other characters, a carriage return and a
  -- newline, and each read gives some of it, in any pieces that do not fill `buf`, the call returns the
  -- length of the line with its newline, has stored the line, the newline and a terminator, and leaves
  -- exactly what follows.
  pub read_line-GotLine :
      (rounds max : ℕ) (unread line rest : List ℕ) (w : W)
      → All (λ c. c ≢ newline) line
      → unread ++ feed.pending w ≡ line ++ carriage_return ∷ newline ∷ rest
      → length line + 2 < max
      → length line + 2 < rounds
      → GotLine line rest (read_line net rounds control max unread w)
  unfolding read_line
  read_line-GotLine rounds max unread line rest w h e k q =
      let some_room : (max == 0) ≡ false = ground arith in
      let l : List ℕ = line ++ carriage_return ∷ [] in
      let size : length l ≡ length line + 1 = length-append line (carriage_return ∷ []) in
      rw some_room (
        read_line_loop-GotLine rounds max false [] unread l line rest w refl (All-end line h)
          (e ∙ sym (append_assoc line (carriage_return ∷ []) (newline ∷ rest)))
          (omega (arith, size, k)) (omega arith) (omega (arith, size, q)) refl)

module _ {W : Type 0} (net : Net W) where
  -- A read that fills `buf` makes readLine write its terminator behind it.
  pub read_line_full :
      (rounds max : ℕ) (bs : List ℕ) (w : W)
      → 1 < max
      → (net.read bufsiz w).0 ≡ bytes bs
      → length bs ≡ bufsiz
      → read_line net (suc rounds) control max [] w ≡ fault
  unfolding read_line read_line_loop split_line
  read_line_full rounds max bs w h e k = ground (arith, store-filled_full bs k)
