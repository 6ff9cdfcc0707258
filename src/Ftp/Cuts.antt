-- ===== src/Ftp/Cuts.antt =====
-- How the loop of readLine in src/FTPClient.cpp cuts what it has read into lines.
use fembed_lwip.Common.{
  ◌∙◌, ap, replicate, append-nil, none, some, ℕ, zero, suc, ◌+◌, ◌-◌, ◌<◌, ◌≡◌, ◌≢◌, refl, ◌⊎◌, inl,
  inr, arith, List, [], ◌∷◌, ◌++◌, All, true, false, length, leb, if◌then◌else◌,
}
use fembed_lwip.Client.Run.{returned}
use fembed_lwip.Ftp.Lines.{store, filled, bufsiz, newline, carriage_return, split_line, strip_line}

-- Two ways to cut the same text: before or behind its character `c`.
pub append_split :
    (xs p l : List ℕ) (c : ℕ) (rest : List ℕ)
    → xs ++ p ≡ l ++ c ∷ rest
    → ((more : List ℕ) × ((l ≡ xs ++ more) × (p ≡ more ++ c ∷ rest)))
      ⊎ ((more : List ℕ) × ((xs ≡ l ++ c ∷ more) × (rest ≡ more ++ p)))
append_split [] p l c rest e = inl (l, (refl, e))
append_split (x ∷ xs) p [] c rest e = inr (xs, (cc, cc))
append_split (x ∷ xs) p (y ∷ l) c rest e =
    let k : xs ++ p ≡ l ++ c ∷ rest = cc in
    elim (append_split xs p l c rest k) [
      | inl (more, (a, b)) ↦ inl (more, (cc, b))
      | inr (more, (a, b)) ↦ inr (more, (cc, b))
    ]

pub split_line-whole :
    (text : List ℕ)
    → All (λ c. c ≢ newline) text
    → split_line (length text) text ≡ (text, false, [])
unfolding split_line
split_line-whole [] h = refl
split_line-whole (c ∷ text) (a, h) = ground (arith, split_line-whole text h)

pub split_line-newline :
    (n : ℕ) (line rest : List ℕ)
    → All (λ c. c ≢ newline) line
    → length line < n
    → split_line n (line ++ newline ∷ rest) ≡ (line ++ newline ∷ [], true, rest)
unfolding split_line
split_line-newline zero line rest h k = absurd (omega arith)
split_line-newline (suc n) [] rest h k = refl
split_line-newline (suc n) (c ∷ line) rest (a, h) k =
    let e : split_line n (line ++ newline ∷ rest) ≡ (line ++ newline ∷ [], true, rest) =
      split_line-newline n line rest h (omega arith) in
    ground (arith, e)

pub strip_line-crlf :
    (line : List ℕ)
    → strip_line (line ++ carriage_return ∷ newline ∷ [])
      ≡ returned (line ++ newline ∷ 0 ∷ 0 ∷ [], length line + 1)
unfolding strip_line
strip_line-crlf [] = refl
strip_line-crlf (a ∷ []) = refl
strip_line-crlf (a ∷ b ∷ []) = refl
strip_line-crlf (a ∷ b ∷ c ∷ line) =
    let e : suc (suc (length line)) + 1 + 1 ≡ suc (suc (suc (length line))) + 1 = omega arith in
    rw (strip_line-crlf (b ∷ c ∷ line), e) refl

-- How much of what was read is copied at most.
pub enough :
    (l more unread max : ℕ)
    → unread ≡ l + suc more
    → l + 1 < max
    → l < (if leb unread max then unread else max - 1)
enough l more unread max e h = ground arith

pub All-both :
    (xs ys : List ℕ)
    → All (λ c. c ≢ newline) (xs ++ ys)
    → All (λ c. c ≢ newline) xs × All (λ c. c ≢ newline) ys
All-both [] ys h = (tt, h)
All-both (x ∷ xs) ys (a, h) = let (b, c) = All-both xs ys h in ((a, b), c)

pub All-end :
    (xs : List ℕ) → All (λ c. c ≢ newline) xs → All (λ c. c ≢ newline) (xs ++ carriage_return ∷ [])
All-end [] h = (omega arith, tt)
All-end (x ∷ xs) (a, h) = (a, All-end xs h)

pub store-append :
    (c x : ℕ) (xs ys : List ℕ) → store (length xs) c (xs ++ x ∷ ys) ≡ some (xs ++ c ∷ ys)
unfolding store
store-append c x [] ys = refl
store-append c x (y ∷ xs) ys = rw (store-append c x xs ys) refl

store_behind : (c : ℕ) (xs : List ℕ) → store (length xs) c xs ≡ none
unfolding store
store_behind c [] = refl
store_behind c (x ∷ xs) = rw (store_behind c xs) refl

-- The terminator behind what was read has room unless `buf` is full.
pub store-filled :
    (bs : List ℕ)
    → length bs < bufsiz
    → store (length bs) 0 (filled bs) ≡ some (bs ++ 0 ∷ replicate (bufsiz - length bs - 1) 0)
store-filled bs h =
    let left : bufsiz - length bs ≡ suc (bufsiz - length bs - 1) = omega arith in
    ap (λ (n : ℕ). store (length bs) 0 (bs ++ replicate n 0)) left
    ∙ store-append 0 0 bs (replicate (bufsiz - length bs - 1) 0)

pub store-filled_full : (bs : List ℕ) → length bs ≡ bufsiz → store (length bs) 0 (filled bs) ≡ none
store-filled_full bs h =
    let left : bufsiz - length bs ≡ 0 = omega (arith, h) in
    ap (λ (n : ℕ). store (length bs) 0 (bs ++ replicate n 0)) left
    ∙ (ap (store (length bs) 0) (append-nil bs) ∙ store_behind 0 bs)
