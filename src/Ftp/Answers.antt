-- ===== src/Ftp/Answers.antt =====
-- readResp of src/FTPClient.cpp reads one answer of the server, of one line or of several.
use fembed_lwip.Common.{
  ℕ, zero, suc, ◌+◌, ◌<◌, ◌≡◌, ◌≢◌, refl, ◌∙◌, arith, pos, List, [], ◌∷◌, ◌++◌, All, Bool, true,
  false, some, Option-cases, inl, inr, length, length-append, drop, ◌==◌, if◌then◌else◌,
}
use fembed_lwip.Client.Run.{returned}
use fembed_lwip.Ftp.Net.{Net}
use fembed_lwip.Ftp.Lines.{newline, carriage_return, control}
use fembed_lwip.Ftp.Control.{
  response_bufsiz, Sys, response_at, strncmp_same, response_line, skip_lines, starts_with, match_of,
  read_resp,
}
use fembed_lwip.Ftp.Reading.{Feed, read_line-GotLine}

-- The lines as the server sends them, and `rest` behind them.
unfoldable pub sent_lines : List (List ℕ) → List ℕ → List ℕ
sent_lines [] rest = rest
sent_lines (line ∷ lines) rest = line ++ carriage_return ∷ newline ∷ sent_lines lines rest

abbrev pub stored_line : List ℕ → List ℕ
stored_line line = line ++ newline ∷ 0 ∷ 0 ∷ []

-- The line does not begin with the code and a space.
abbrev pub IsContinued : ℕ → ℕ → ℕ → List ℕ → Type 0
IsContinued a b c line = strncmp_same 4 (stored_line line) (a ∷ b ∷ c ∷ b' ' ∷ 0 ∷ []) ≡ some false

-- The lines of an answer whose code begins with `a`: one line, or several, of which the first has a
-- hyphen behind the code and the last a space.
pub data Answer (a : ℕ) : List (List ℕ) → Type 0 where
  single : (b c d : ℕ) (text : List ℕ) → d ≢ b'-' → Answer a ((a ∷ b ∷ c ∷ d ∷ text) ∷ [])
  several :
      (b c : ℕ) (text last : List ℕ) (lines : List (List ℕ))
      → All (IsContinued a b c) lines
      → Answer a ((a ∷ b ∷ c ∷ b'-' ∷ text) ∷ (lines ++ (a ∷ b ∷ c ∷ b' ' ∷ last) ∷ []))

-- The line fits `response`, and the rounds suffice for it.
abbrev pub Fits : ℕ → List ℕ → Type 0
Fits rounds line =
    All (λ c. c ≢ newline) line × ((length line + 2 < response_bufsiz) × (length line + 2 < rounds))

strncmp_same-append :
    (n : ℕ) (xs tail ys : List ℕ) (b : Bool)
    → strncmp_same n xs ys ≡ some b
    → strncmp_same n (xs ++ tail) ys ≡ some b
unfolding strncmp_same
strncmp_same-append zero xs tail ys b h = h
strncmp_same-append (suc n) [] tail ys b h = ground arith
strncmp_same-append (suc n) (x ∷ xs) tail [] b h = ground arith
strncmp_same-append (suc n) (x ∷ xs) tail (y ∷ ys) b h =
    elim (Option-cases (strncmp_same n xs ys)) [
      | inl e ↦ ground (arith, e)
      | inr (r, e) ↦ ground (arith, e, strncmp_same-append n xs tail ys r e)
    ]

module _ {W : Type 0} (net : Net W) (feed : Feed net) where
  -- What is left for the client to read.
  abbrev pub ahead : Sys W → List ℕ
  ahead s = s.client.unread ++ feed.pending s.world

  pub response_line-stored :
      (rounds : ℕ) (s : Sys W) (line rest : List ℕ)
      → s.client.dir ≡ control
      → Fits rounds line
      → ahead s ≡ line ++ carriage_return ∷ newline ∷ rest
      → (s1 : Sys W) × ((tail : List ℕ) × ((response_line net rounds s
              ≡ returned (pos (length line + 1), s1))
            × ((s1.client.dir ≡ control)
                × ((s1.client.response ≡ stored_line line ++ tail) × (ahead s1 ≡ rest)))))
  unfolding response_line
  response_line-stored rounds s line rest d (plain, (small, quick)) e =
      let (unread, (w, (got, left))) =
        read_line-GotLine net feed rounds response_bufsiz s.client.unread line rest s.world plain e
          small quick in
      let tail : List ℕ = drop (length (stored_line line)) s.client.response in
      (
        record {
          client = record s.client { response = stored_line line ++ tail; unread = unread };
          world = w;
        },
        (tail, (rw (d, got) refl, (d, (refl, left)))),
      )

  same_code :
      (a b c : ℕ) (last tail : List ℕ)
      → strncmp_same 4 (stored_line (a ∷ b ∷ c ∷ b' ' ∷ last) ++ tail) (a ∷ b ∷ c ∷ b' ' ∷ 0 ∷ [])
        ≡ some true
  unfolding strncmp_same
  same_code a b c last tail = ground arith

  -- One turn of the loop over the lines.
  skipped :
      (fuel rounds a b c : ℕ) (s s1 : Sys W) (n : ℕ) (same : Bool)
      → response_line net rounds s ≡ returned (pos n, s1)
      → strncmp_same 4 s1.client.response (a ∷ b ∷ c ∷ b' ' ∷ 0 ∷ []) ≡ some same
      → skip_lines net (suc fuel) rounds (a ∷ b ∷ c ∷ b' ' ∷ 0 ∷ []) s ≡ (
          if same
          then returned (true, s1)
          else skip_lines net fuel rounds (a ∷ b ∷ c ∷ b' ' ∷ 0 ∷ []) s1)
  unfolding skip_lines
  skipped fuel rounds a b c s s1 n true got match = rw (got, match) refl
  skipped fuel rounds a b c s s1 n false got match = rw (got, match) refl

  -- The state after a line that the client has stored.
  abbrev Stored : List ℕ → List ℕ → Sys W → Type 0
  Stored line rest s =
      (tail : List ℕ) × ((s.client.dir ≡ control)
        × ((s.client.response ≡ stored_line line ++ tail) × (ahead s ≡ rest)))

  skip_lines-Stored :
      (fuel rounds a b c : ℕ) (last : List ℕ) (lines : List (List ℕ)) (rest : List ℕ) (s : Sys W)
      → s.client.dir ≡ control
      → All (IsContinued a b c) lines
      → All (Fits rounds) (lines ++ (a ∷ b ∷ c ∷ b' ' ∷ last) ∷ [])
      → ahead s ≡ sent_lines (lines ++ (a ∷ b ∷ c ∷ b' ' ∷ last) ∷ []) rest
      → length lines < fuel
      → (s1 : Sys W) × ((skip_lines net fuel rounds (a ∷ b ∷ c ∷ b' ' ∷ 0 ∷ []) s
            ≡ returned (true, s1))
          × Stored (a ∷ b ∷ c ∷ b' ' ∷ last) rest s1)
  unfolding skip_lines sent_lines
  skip_lines-Stored zero rounds a b c last lines rest s d h f e k = absurd (omega arith)
  skip_lines-Stored (suc fuel) rounds a b c last [] rest s d h (f, more) e k =
      let (s1, (tail, (got, (d1, (r, left))))) =
        response_line-stored rounds s (a ∷ b ∷ c ∷ b' ' ∷ last) rest d f e in
      let match : strncmp_same 4 s1.client.response (a ∷ b ∷ c ∷ b' ' ∷ 0 ∷ []) ≡ some true =
        rw r (same_code a b c last tail) in
      (s1, (skipped fuel rounds a b c s s1 _ true got match, (tail, (d1, (r, left)))))
  skip_lines-Stored (suc fuel) rounds a b c last (line ∷ lines) rest s d (h, hs) (f, fs) e k =
      let (s1, (tail, (got, (d1, (r, left))))) = response_line-stored rounds s line _ d f e in
      let match : strncmp_same 4 s1.client.response (a ∷ b ∷ c ∷ b' ' ∷ 0 ∷ []) ≡ some false =
        rw r (strncmp_same-append 4 (stored_line line) tail _ false h) in
      let (s2, (run, stored)) =
        skip_lines-Stored fuel rounds a b c last lines rest s1 d1 hs fs left (omega arith) in
      (s2, (skipped fuel rounds a b c s s1 _ false got match ∙ run, stored))

  -- readResp on the control connection, given room and rounds for every line: where what is ahead
  -- begins with an answer of the server, of one line or of several, the call tells whether its code
  -- begins with `x` and leaves exactly what follows the answer. The server's bytes arrive in pieces that
  -- do not fill `buf`.
  pub read_resp-Answer :
      (fuel rounds a x : ℕ) (lines : List (List ℕ)) (rest : List ℕ) (s : Sys W)
      → Answer a lines
      → s.client.dir ≡ control
      → All (Fits rounds) lines
      → ahead s ≡ sent_lines lines rest
      → length lines < fuel
      → (s1 : Sys W) × ((read_resp net fuel rounds x s ≡ returned (a == x, s1)) × (ahead s1 ≡ rest))
  unfolding read_resp response_at starts_with match_of sent_lines
  read_resp-Answer fuel rounds a x lines rest s (single b c d text h) dir (f, more) e k =
      let (s1, (tail, (got, (d1, (r, left))))) =
        response_line-stored rounds s (a ∷ b ∷ c ∷ d ∷ text) rest dir f e in
      let no_mark : (d == b'-') ≡ false = ground arith in (s1, (rw (got, r, no_mark) refl, left))
  read_resp-Answer fuel rounds a x lines rest s (several b c text last middle h) dir (f, fs) e k =
      let (s1, (tail, (got, (d1, (r, left))))) =
        response_line-stored rounds s (a ∷ b ∷ c ∷ b'-' ∷ text) _ dir f e in
      let (s2, (run, (tail2, (d2, (r2, left2))))) =
        skip_lines-Stored fuel rounds a b c last middle rest s1 d1 h fs left
          (omega (arith, length-append middle ((a ∷ b ∷ c ∷ b' ' ∷ last) ∷ []))) in
      (s2, (rw (got, r, run, r2) refl, left2))
