-- ===== src/Ftp/Control.antt =====
-- readResp of FTPClientBase and the commands of FTPClient in src/FTPClient.cpp.
use fembed_lwip.Common.{
  ℕ, zero, suc, ◌+◌, ◌-◌, ◌||◌, ltb, take, set, ◌*◌, ◌%◌, ◌^◌, ℤ, negsuc, List, [], ◌∷◌, ◌++◌, Bool,
  true, false, ◌&&◌, not, Option, none, some, length, drop, get_elem?, leb, ◌==◌, if◌then◌else◌,
  eq_ℤ,
}
use fembed_lwip.Client.Run.{Run, returned, fault, unfinished, lift, ◌>>=◌}
use fembed_lwip.Ftp.Net.{Net}
use fembed_lwip.Ftp.Lines.{Dir, control, read_line}

-- FTPLIB_RESPONSE_BUFSIZ
abbrev pub response_bufsiz : ℕ
response_bufsiz = 512

-- `unread` lies from `cget` to `cput`; `response` is the object.
pub record Client : Type 0 where
  pub dir : Dir
  pub response : List ℕ
  pub unread : List ℕ

pub record Sys (W : Type 0) : Type 0 where
  pub client : Client
  pub world : W

-- `response[i]`
unfoldable pub response_at : ℕ → Client → Run ℕ
response_at i c = lift (get_elem? c.response i)

-- `strncmp(a, b, n) == 0`
unfoldable pub strncmp_same : ℕ → List ℕ → List ℕ → Option Bool
strncmp_same zero a b = some true
strncmp_same (suc n) [] b = none
strncmp_same (suc n) (x ∷ a) [] = none
strncmp_same (suc n) (x ∷ a) (y ∷ b) =
    let rest = strncmp_same n a b in
    if x == y then (if x == 0 then some true else rest) else some false

-- `isdigit`
abbrev is_digit : ℕ → Bool
is_digit c = leb b'0' c && leb c b'9'

-- The digits at the front, as `atoi` reads them, for values that an int holds.
unfoldable pub atoi : ℕ → List ℕ → ℕ
atoi value [] = value
atoi value (c ∷ text) =
    let rest = atoi (value * 10 + (c - b'0')) text in if is_digit c then rest else value

-- What stands before the first `sep`, and behind it.
unfoldable pub split_at_char : ℕ → List ℕ → List ℕ × Option (List ℕ)
split_at_char sep [] = ([], none)
split_at_char sep (c ∷ text) =
    let (front, behind) = split_at_char sep text in
    if c == sep then ([], some text) else (c ∷ front, behind)

-- `strchr`: how far the character `sep` is, if it comes before the end of the text.
unfoldable pub find_char : ℕ → List ℕ → Run (Option ℕ)
find_char sep [] = fault
find_char sep (c ∷ text) =
    if c == sep
    then returned (some 0)
    else if c == 0
    then returned none
    else (find_char sep text >>= λ found.
        returned (elim found [ none ↦ none | some n ↦ some (suc n) ]))

-- How many characters the loop passes, with `room` to the last of the object: up to `stop` or the end of
-- the text. A backslash takes the character behind it along, whatever it is.
unfoldable pub text_end : ℕ → ℕ → Bool → List ℕ → ℕ
text_end stop room skip [] = 0
text_end stop room skip (c ∷ text) =
    let rest = text_end stop (room - 1) (not skip && c == b'\\') text in
    if not skip && (leb room 0 || (c == 0 || c == stop)) then 0 else suc rest

-- What a `std::string` takes of an object.
unfoldable pub cstring : List ℕ → List ℕ
cstring [] = []
cstring (c ∷ text) = let rest = cstring text in if c == 0 then [] else c ∷ rest

-- The text from `response + i` to `stop`, whose place gets the terminator.
unfoldable pub take_text : ℕ → ℕ → Client → Run (List ℕ × Client)
take_text stop i c =
    let text = drop i c.response in
    let n = text_end stop (response_bufsiz - 1 - i) false text in
    if ltb n (length text)
    then returned (cstring (take n text), record c { response = set c.response (i + n) 0 })
    else fault

starts_with_digit : List ℕ → Bool
starts_with_digit [] = false
starts_with_digit (c ∷ text) = is_digit c

module _ {W : Type 0} (net : Net W) where
  -- `readLine(this->response, FTPLIB_RESPONSE_BUFSIZ)`
  unfoldable pub response_line : ℕ → Sys W → Run (ℤ × Sys W)
  response_line rounds s =
      read_line net rounds s.client.dir response_bufsiz s.client.unread s.world
      >>= λ (rc, written, unread, w). returned (
        rc,
        record {
          client = record s.client {
            response = written ++ drop (length written) s.client.response;
            unread = unread;
          };
          world = w;
        },
      )

  -- The lines up to the one that begins with the code and a space; `false` is a failed read.
  unfoldable pub skip_lines : ℕ → ℕ → List ℕ → Sys W → Run (Bool × Sys W)
  skip_lines zero rounds match s = unfinished
  skip_lines (suc lines) rounds match s = response_line rounds s >>= λ (rc, s1).
      elim (eq_ℤ rc (negsuc 0)) [
        | true ↦ returned (false, s1)
        | false ↦ lift (strncmp_same 4 s1.client.response match) >>= λ same. elim same [
          | true ↦ returned (true, s1)
          | false ↦ skip_lines lines rounds match s1
        ]
      ]

  unfoldable pub starts_with : ℕ → Sys W → Run (Bool × Sys W)
  starts_with c s = response_at 0 s.client >>= λ first. returned (first == c, s)

  -- `match`: the code and a space.
  unfoldable pub match_of : List ℕ → Option (List ℕ)
  match_of (a ∷ b ∷ c ∷ d ∷ response) = some (a ∷ b ∷ c ∷ b' ' ∷ 0 ∷ [])
  match_of _ = none

  unfoldable pub read_resp : ℕ → ℕ → ℕ → Sys W → Run (Bool × Sys W)
  read_resp lines rounds c s = response_line rounds s >>= λ (rc, s1).
      if eq_ℤ rc (negsuc 0)
      then returned (false, s1)
      else (response_at 3 s1.client >>= λ mark.
          if mark == b'-'
          then (lift (match_of s1.client.response) >>= λ match.
              skip_lines lines rounds match s1 >>= λ (ok, s2).
              if ok then starts_with c s2 else returned (false, s2))
          else starts_with c s1)

  abbrev print : List ℕ → Sys W → Sys W
  print text s = record s { world = net.printf text s.world }

  abbrev crlf : List ℕ
  crlf = 13 ∷ 10 ∷ []

  -- A command and its answer: cd, cdup, mkdir, rmdir, unlink and site send such a line.
  unfoldable pub command : ℕ → ℕ → List ℕ → List ℕ → Sys W → Run (Bool × Sys W)
  command lines rounds verb argument s =
      read_resp lines rounds b'2' (print (verb ++ (argument ++ crlf)) s)

  unfoldable pub cd : ℕ → ℕ → List ℕ → Sys W → Run (Bool × Sys W)
  cd lines rounds directory s = command lines rounds (b'C' ∷ b'W' ∷ b'D' ∷ b' ' ∷ []) directory s

  unfoldable pub cdup : ℕ → ℕ → Sys W → Run (Bool × Sys W)
  cdup lines rounds s = command lines rounds (b'C' ∷ b'D' ∷ b'U' ∷ b'P' ∷ []) [] s

  unfoldable pub mkdir : ℕ → ℕ → List ℕ → Sys W → Run (Bool × Sys W)
  mkdir lines rounds directory s = command lines rounds (b'M' ∷ b'K' ∷ b'D' ∷ b' ' ∷ []) directory s

  unfoldable pub rmdir : ℕ → ℕ → List ℕ → Sys W → Run (Bool × Sys W)
  rmdir lines rounds directory s = command lines rounds (b'R' ∷ b'M' ∷ b'D' ∷ b' ' ∷ []) directory s

  unfoldable pub unlink : ℕ → ℕ → List ℕ → Sys W → Run (Bool × Sys W)
  unlink lines rounds filename s =
      command lines rounds (b'D' ∷ b'E' ∷ b'L' ∷ b'E' ∷ b' ' ∷ []) filename s

  unfoldable pub site : ℕ → ℕ → List ℕ → Sys W → Run (Bool × Sys W)
  site lines rounds text s = command lines rounds (b'S' ∷ b'I' ∷ b'T' ∷ b'E' ∷ b' ' ∷ []) text s

  unfoldable pub rename : ℕ → ℕ → List ℕ → List ℕ → Sys W → Run (Bool × Sys W)
  rename lines rounds old_name new_name s =
      read_resp lines rounds b'3'
        (print ((b'R' ∷ b'N' ∷ b'F' ∷ b'R' ∷ b' ' ∷ []) ++ (old_name ++ crlf)) s)
      >>= λ (ok, s1).
          if ok
          then command lines rounds (b'R' ∷ b'N' ∷ b'T' ∷ b'O' ∷ b' ' ∷ []) new_name s1
          else returned (false, s1)

  -- A server that wants no password answers 2 at once.
  unfoldable pub login : ℕ → ℕ → List ℕ → List ℕ → Sys W → Run (Bool × Sys W)
  login lines rounds user password s =
      read_resp lines rounds b'3'
        (print ((b'U' ∷ b'S' ∷ b'E' ∷ b'R' ∷ b' ' ∷ []) ++ (user ++ crlf)) s)
      >>= λ (ok, s1).
          if ok
          then command lines rounds (b'P' ∷ b'A' ∷ b'S' ∷ b'S' ∷ b' ' ∷ []) password s1
          else starts_with b'2' s1

  -- A command whose answer holds a text. Where the server refuses it a `std::string` is made of NULL.
  unfoldable pub request :
      ℕ → ℕ → List ℕ → (Client → Run (List ℕ × Client)) → Sys W → Run (List ℕ × Sys W)
  request lines rounds line text_of s = read_resp lines rounds b'2' (print line s) >>= λ (ok, s1).
      if ok
      then (text_of s1.client >>= λ (text, c). returned (text, record s1 { client = c }))
      else fault

  unfoldable pub get_system_type : ℕ → ℕ → Sys W → Run (List ℕ × Sys W)
  get_system_type lines rounds s =
      request lines rounds (b'S' ∷ b'Y' ∷ b'S' ∷ b'T' ∷ crlf) (take_text b' ' 4) s

  unfoldable pub get_directory : ℕ → ℕ → Sys W → Run (List ℕ × Sys W)
  get_directory lines rounds s =
      request lines rounds (b'P' ∷ b'W' ∷ b'D' ∷ crlf)
        (λ c. find_char b'"' c.response >>= λ found. elim found [
          | none ↦ fault
          | some n ↦ take_text b'"' (suc n) c
        ])
        s

  unfoldable pub mod_date : ℕ → ℕ → List ℕ → Sys W → Run (List ℕ × Sys W)
  mod_date lines rounds path s =
      request lines rounds ((b'M' ∷ b'D' ∷ b'T' ∷ b'M' ∷ b' ' ∷ []) ++ (path ++ crlf))
        (λ c. returned (cstring (drop 4 c.response), c)) s

  -- `host:port`; the port is 21 where none is given.
  unfoldable pub connect_host : ℕ → ℕ → List ℕ → Sys W → Run (Bool × Sys W)
  unfolding starts_with_digit
  connect_host lines rounds host s =
      let (name, behind) = split_at_char b':' host in
      let pnum : List ℕ = elim behind [ none ↦ (b'2' ∷ b'1' ∷ []) | some text ↦ text ] in
      if not (starts_with_digit pnum)
      then returned (false, s)
      else (let (rc, w1) = net.connect name (atoi 0 pnum % 2 ^ 16) s.world in
          if eq_ℤ rc (negsuc 0)
          then returned (false, record s { world = w1 })
          else (read_resp lines rounds b'2'
                (record { client = record s.client { dir = control }; world = w1 })
              >>= λ (ok, s2).
                  if ok
                  then returned (true, s2)
                  else returned (false, record s2 { world = net.stop s2.world })))
