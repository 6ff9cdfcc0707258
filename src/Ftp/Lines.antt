-- ===== src/Ftp/Lines.antt =====
-- readLine and writeLine of FTPClientBase in src/FTPClient.cpp.
use fembed_lwip.Common.{
  Option, none, some, take, replicate, ℕ, zero, suc, ◌+◌, ◌-◌, ℤ, pos, negsuc, List, [], ◌∷◌, ◌++◌,
  Bool, true, false, ◌&&◌, not, length, ltb, leb, ◌==◌, if◌then◌else◌,
}
use fembed_lwip.Wire.Source.{failed, bytes}
use fembed_lwip.Client.Run.{Run, returned, fault, unfinished, ◌>>=◌}
use fembed_lwip.Ftp.Net.{Net}

-- FTPLIB_BUFSIZ, the size of `buf`.
abbrev pub bufsiz : ℕ
bufsiz = 512

abbrev pub newline : ℕ
newline = 10

abbrev pub carriage_return : ℕ
carriage_return = 13

-- `dir`: FTPLIB_CONTROL, FTPLIB_READ, FTPLIB_WRITE.
pub data Dir : Type 0 where
  control reading writing : Dir

-- `memccpy(bp, cget, '\n', n)`: what is copied, whether it ends with a newline, and what is left.
unfoldable pub split_line : ℕ → List ℕ → List ℕ × Bool × List ℕ
split_line zero text = ([], false, text)
split_line (suc n) [] = ([], false, [])
split_line (suc n) (c ∷ text) =
    let (line, found, rest) = split_line n text in
    if c == newline then (c ∷ [], true, text) else (c ∷ line, found, rest)

-- The line without the carriage return before its newline, as the buffer holds it: the strings
-- end with 0. `strcmp` looks at the two characters before the terminator.
unfoldable pub strip_line : List ℕ → Run (List ℕ × ℕ)
strip_line [] = fault
strip_line (a ∷ []) = fault
strip_line (a ∷ b ∷ []) =
    if a == carriage_return && b == newline
    then returned (newline ∷ 0 ∷ 0 ∷ [], 1)
    else returned (a ∷ b ∷ 0 ∷ [], 2)
strip_line (a ∷ b ∷ c ∷ line) =
    strip_line (b ∷ c ∷ line) >>= λ (text, n). returned (a ∷ text, n + 1)

-- What the caller's buffer holds of `out` when the call ends without a newline.
abbrev pub terminated : List ℕ → List ℕ
terminated [] = []
terminated (c ∷ out) = (c ∷ out) ++ 0 ∷ []

-- `*buf = '\0'` before the call ends.
abbrev pub blanked : List ℕ → List ℕ
blanked [] = 0 ∷ []
blanked (c ∷ out) = 0 ∷ (out ++ 0 ∷ [])

-- The result, what was written to the caller's buffer, and what is left from `cget` to `cput`.
abbrev pub Line : Type 0 → Type 0
Line W = ℤ × List ℕ × List ℕ × W

-- `buf` after a read of `bs` into it. What stands behind `cput` is never looked at; it is taken for 0.
abbrev pub filled : List ℕ → List ℕ
filled bs = bs ++ replicate (bufsiz - length bs) 0

-- `object[i] = c`; `none` is behind the object.
unfoldable pub store : ℕ → ℕ → List ℕ → Option (List ℕ)
store i c [] = none
store zero c (x ∷ xs) = some (c ∷ xs)
store (suc i) c (x ∷ xs) = elim (store i c xs) [ none ↦ none | some ys ↦ some (x ∷ ys) ]

module _ {W : Type 0} (net : Net W) where
  -- With a newline at the end of `out`.
  unfoldable pub end_line : List ℕ → List ℕ → W → Run (Line W)
  end_line out unread w = strip_line out >>= λ (text, n). returned (pos n, text, unread, w)

  -- One round of the loop. `max` is the room that is left, `out` what was copied, `unread` lies from
  -- `cget` to `cput`; when more is read it is empty, so `cput` and `cget` are set to the start of
  -- `buf` and `cleft` to its size. The terminator needs room behind the
  -- copy; the one behind what is read, `buf[cavail] = 0`, is stored in `buf`.
  unfoldable pub read_line_loop : ℕ → Bool → ℕ → List ℕ → List ℕ → W → Run (Line W)
  read_line_loop zero eof max out unread w = unfinished
  read_line_loop (suc rounds) eof max out unread w =
      let n = if leb (length unread) max then length unread else max - 1 in
      let (line, found, rest) = split_line n unread in
      let out1 = out ++ line in
      let max1 = max - length line in
      elim (not (leb (length unread) 0) && not (ltb (length line) max)) [
        | true ↦ fault
        | false ↦ elim found [
          | true ↦ end_line out1 rest w
          | false ↦ elim (max1 == 1) [
            | true ↦ returned (pos (length out1), blanked out1, rest, w)
            | false ↦ elim eof [
              | true ↦ returned (
                if leb (length out1) 0 then negsuc 0 else pos (length out1),
                terminated out1,
                rest,
                w,
              )
              | false ↦
                  let (got, w1) = net.read bufsiz w in
                  elim got [
                    | failed ↦ returned (negsuc 0, terminated out1, rest, w1)
                    | bytes bs ↦ elim (store (length bs) 0 (filled bs)) [
                      | none ↦ fault
                      | some buf ↦
                          read_line_loop rounds (leb (length bs) 0) max1 out1 (take (length bs) buf)
                            w1
                    ]
                  ]
            ]
          ]
        ]
      ]

  -- `max` is the size of the object `buf`.
  unfoldable pub read_line : ℕ → Dir → ℕ → List ℕ → W → Run (Line W)
  read_line rounds writing max unread w = returned (negsuc 0, [], unread, w)
  read_line rounds control max unread w =
      if max == 0
      then returned (pos 0, [], unread, w)
      else read_line_loop rounds false max [] unread w
  read_line rounds reading max unread w =
      if max == 0
      then returned (pos 0, [], unread, w)
      else read_line_loop rounds false max [] unread w

  -- `nbp[nb++] = c` after the buffer was sent if it was full; `false` is a short write.
  unfoldable pub put : ℕ → List ℕ → W → Bool × List ℕ × W
  put c held w =
      if length held == bufsiz
      then (let (sent, w1) = net.write held w in
          if sent == bufsiz then (true, c ∷ [], w1) else (false, held, w1))
      else (true, held ++ c ∷ [], w)

  -- The characters that one of `buf` stands for: a newline with no carriage return before it gets one.
  unfoldable pub write_char : ℕ → ℕ → List ℕ → W → Bool × List ℕ × W
  write_char last c held w =
      if c == newline && not (last == carriage_return)
      then (let (ok, held1, w1) = put carriage_return held w in
          if ok then put c held1 w1 else (false, held1, w1))
      else put c held w

  -- The loop, and the last part of the buffer.
  unfoldable pub write_line_loop : ℕ → List ℕ → List ℕ → W → Bool × W
  write_line_loop last [] held w =
      if leb (length held) 0
      then (true, w)
      else (let (sent, w1) = net.write held w in (sent == length held, w1))
  write_line_loop last (c ∷ text) held w =
      let (ok, held1, w1) = write_char last c held w in
      elim ok [ true ↦ write_line_loop c text held1 w1 | false ↦ (false, w1) ]

  unfoldable pub write_line : Dir → List ℕ → W → ℤ × W
  write_line writing text w =
      let (ok, w1) = write_line_loop 0 text [] w in
      if ok then (pos (length text), w1) else (negsuc 0, w1)
  write_line control text w = (negsuc 0, w)
  write_line reading text w = (negsuc 0, w)
