-- ===== src/Ftp/Texts.antt =====
-- What getDirectory of src/FTPClient.cpp reads out of the answer of the server.
use fembed_lwip.Common.{
  ℕ, ◌+◌, ◌-◌, ◌≤◌, ◌<◌, ◌≡◌, ◌≢◌, refl, ap, ◌∙◌, arith, suc, false, true, List, [], ◌∷◌, ◌++◌,
  append_assoc, All, length, length-append, take-append, drop-append, set, some, ltb, lt→ltb,
}
use fembed_lwip.Client.Run.{returned}
use fembed_lwip.Ftp.Net.{Net}
use fembed_lwip.Ftp.Lines.{control, newline, carriage_return}
use fembed_lwip.Ftp.Control.{
  Client, Sys, response_bufsiz, text_end, cstring, take_text, find_char, read_resp, response_at,
  starts_with, request, get_directory,
}
use fembed_lwip.Ftp.Reading.{Feed}
use fembed_lwip.Ftp.Answers.{Fits, ahead, response_line-stored}

-- No character of the text ends it or goes with the next one.
abbrev pub IsPlainText : ℕ → List ℕ → Type 0
IsPlainText stop text = All (λ c. (c ≢ 0) × ((c ≢ stop) × (c ≢ b'\\'))) text

text_end-append :
    (stop room : ℕ) (text behind : List ℕ)
    → IsPlainText stop text
    → length text ≤ room
    → text_end stop room false (text ++ stop ∷ behind) ≡ length text
unfolding text_end
text_end-append stop room [] behind h k = ground arith
text_end-append stop room (c ∷ text) behind ((a, (b, d)), h) k =
    let e : text_end stop (room - 1) false (text ++ stop ∷ behind) ≡ length text =
      text_end-append stop (room - 1) text behind h (omega arith) in
    ground (arith, e)

cstring_plain : (stop : ℕ) (text : List ℕ) → IsPlainText stop text → cstring text ≡ text
unfolding cstring
cstring_plain stop [] h = refl
cstring_plain stop (c ∷ text) ((a, _), h) = ground (arith, cstring_plain stop text h)

take_text_lem :
    (stop : ℕ) (front text behind : List ℕ) (c : Client)
    → c.response ≡ front ++ (text ++ stop ∷ behind)
    → IsPlainText stop text
    → length front + length text < response_bufsiz
    → take_text stop (length front) c
      ≡ returned (text, record c { response = set c.response (length front + length text) 0 })
unfolding take_text
take_text_lem stop front text behind c e h k =
    let n : text_end stop (response_bufsiz - 1 - length front) false (text ++ stop ∷ behind)
        ≡ length text =
      text_end-append stop (response_bufsiz - 1 - length front) text behind h (omega arith) in
    let inside : ltb (length text) (length (text ++ stop ∷ behind)) ≡ true =
      lt→ltb (length text) _ (omega (arith, length-append text (stop ∷ behind))) in
    rw
      (
        e,
        drop-append front (text ++ stop ∷ behind),
        n,
        inside,
        take-append text (stop ∷ behind),
        cstring_plain stop text h,
      )
      refl

module _ {W : Type 0} (net : Net W) (feed : Feed net) where
  -- `257 "` and the directory in quotes.
  abbrev pub directory_line : List ℕ → List ℕ → List ℕ
  directory_line directory behind = b'2' ∷ b'5' ∷ b'7' ∷ b' ' ∷ b'"' ∷ (directory ++ b'"' ∷ behind)

  directory_of :
      (fuel rounds n : ℕ) (directory : List ℕ) (s s1 : Sys W) (c : Client)
      → read_resp net fuel rounds b'2'
          (record s { world = net.printf (b'P' ∷ b'W' ∷ b'D' ∷ 13 ∷ 10 ∷ []) s.world })
        ≡ returned (true, s1)
      → find_char b'"' s1.client.response ≡ returned (some n)
      → take_text b'"' (suc n) s1.client ≡ returned (directory, c)
      → get_directory net fuel rounds s ≡ returned (directory, record s1 { client = c })
  unfolding get_directory request
  directory_of fuel rounds n directory s s1 c h k e = rw (h, k, e) refl

  -- getDirectory on the control connection: where the answer to PWD is one line of the code 257 and a
  -- name in quotes, with no quote, backslash or zero in the name, the call returns the name and leaves
  -- exactly what follows the answer. The server's bytes arrive in pieces that do not fill `buf`.
  pub get_directory-name :
      (fuel rounds : ℕ) (directory behind rest : List ℕ) (s : Sys W)
      → s.client.dir ≡ control
      → IsPlainText b'"' directory
      → Fits rounds (directory_line directory behind)
      → s.client.unread ++ feed.pending (net.printf (b'P' ∷ b'W' ∷ b'D' ∷ 13 ∷ 10 ∷ []) s.world)
        ≡ directory_line directory behind ++ carriage_return ∷ newline ∷ rest
      → (s1 : Sys W) × ((get_directory net fuel rounds s ≡ returned (directory, s1))
          × (ahead net feed s1 ≡ rest))
  unfolding read_resp response_at starts_with find_char
  get_directory-name fuel rounds directory behind rest s d h (plain, (small, quick)) e =
      let asked : Sys W = record s {
        world = net.printf (b'P' ∷ b'W' ∷ b'D' ∷ 13 ∷ 10 ∷ []) s.world;
      } in
      let (s1, (tail, (got, (d1, (r, left))))) =
        response_line-stored net feed rounds asked (directory_line directory behind) rest d
          (plain, (small, quick)) e in
      let front : List ℕ = b'2' ∷ b'5' ∷ b'7' ∷ b' ' ∷ b'"' ∷ [] in
      let back : List ℕ = behind ++ (newline ∷ 0 ∷ 0 ∷ tail) in
      let rejoined : (directory ++ b'"' ∷ behind) ++ newline ∷ 0 ∷ 0 ∷ tail
          ≡ directory ++ b'"' ∷ back =
        append_assoc directory (b'"' ∷ behind) (newline ∷ 0 ∷ 0 ∷ tail) in
      let whole : s1.client.response ≡ front ++ (directory ++ b'"' ∷ back) =
        r
        ∙ (append_assoc (directory_line directory behind) (newline ∷ 0 ∷ 0 ∷ []) tail
            ∙ ap (λ (t : List ℕ). front ++ t) rejoined) in
      let answered : read_resp net fuel rounds b'2' asked ≡ returned (true, s1) =
        rw (got, whole) refl in
      let found : find_char b'"' s1.client.response ≡ returned (some 4) = rw whole refl in
      let size : 5 + length directory < response_bufsiz =
        omega (arith, small, length-append directory (b'"' ∷ behind)) in
      let text = take_text_lem b'"' front directory back s1.client whole h size in
      (_, (directory_of fuel rounds 4 directory s s1 _ answered found text, left))
