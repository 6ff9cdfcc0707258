-- ===== src/Examples/Ftp.antt =====
-- The FTP client of src/FTPClient.cpp on a network of the examples.
use mathlib.Core.Path.{sym}
use fembed_lwip.Common.{
  suc, ◌==◌, if◌then◌else◌, take-length, length-take_le, append-take-drop, ℕ, ◌<◌, ◌≡◌, refl, ap,
  ◌⊎◌, inl, inr, arith, pos, negsuc, List, [], ◌∷◌, ◌++◌, true, length, take, drop, replicate,
}
use fembed_lwip.Wire.Source.{bytes}
use fembed_lwip.Client.Run.{returned, fault}
use fembed_lwip.Ftp.Net.{Net}
use fembed_lwip.Ftp.Lines.{bufsiz, control, writing, read_line, write_line}
use fembed_lwip.Ftp.Control.{get_directory, Sys, read_resp, strncmp_same}
use fembed_lwip.Ftp.Puts.{Sender}
use fembed_lwip.Ftp.Written.{network_text, write_line-network_text}
use fembed_lwip.Ftp.Reading.{Feed, GotLine, read_line-GotLine, read_line_full}
use fembed_lwip.Ftp.Texts.{get_directory-name}
use fembed_lwip.Ftp.Answers.{several, ahead, sent_lines, read_resp-Answer}

record World : Type 0 where
  inbox : List ℕ
  outbox : List ℕ

-- Three bytes arrive at a time.
abbrev slow : Net World
slow = record {
  read = λ n w. (bytes (take 3 w.inbox), record w { inbox = drop 3 w.inbox });
  write = λ bs w. (length bs, record w { outbox = w.outbox ++ bs });
  printf = λ text w. record w { outbox = w.outbox ++ text };
  connect = λ host port w. (pos 3, w);
  stop = λ w. w;
}

abbrev arriving : List ℕ → World
arriving inbox = record { inbox = inbox; outbox = [] }

all_taken : (n k : ℕ) → k ≡ (if n == n then k else suc k)
all_taken n k = ground arith

slow-Sender : Sender slow
slow-Sender = record {
  sent = λ w. w.outbox;
  shorts = λ w. 0;
  takes = λ bs w fits. (
    length bs,
    (
      omega arith,
      (
        ap (λ (ys : List ℕ). w.outbox ++ ys) (sym (take-length bs)),
        (λ e. refl, all_taken (length bs) 0),
      ),
    ),
  );
}

some_taken : (inbox : List ℕ) → (inbox ≡ []) ⊎ (0 < length (take 3 inbox))
some_taken [] = inl refl
some_taken (b ∷ inbox) = inr (omega arith)

few_taken : (inbox : List ℕ) → length (take 3 inbox) < bufsiz
few_taken inbox = omega (arith, length-take_le 3 inbox)

slow-Feed : Feed slow
slow-Feed = record {
  pending = λ w. w.inbox;
  reads = λ w. (
    take 3 w.inbox,
    (refl, (few_taken w.inbox, (sym (append-take-drop 3 w.inbox), some_taken w.inbox))),
  );
}

-- Two lines, of which the second has its carriage return already.
abbrev two_lines : List ℕ
two_lines = 97 ∷ 10 ∷ 98 ∷ 13 ∷ 10 ∷ []

write_line-network_text_example :
    (let (rc, w1) = write_line slow writing two_lines (arriving []) in
      ((rc ≡ pos 5)
        × ((w1.outbox ≡ network_text 0 two_lines)
            × (slow-Sender.shorts w1 ≡ slow-Sender.shorts (arriving []))))
      ⊎ ((rc ≡ negsuc 0)
          × (((rest : List ℕ) × (network_text 0 two_lines ≡ w1.outbox ++ rest))
              × (slow-Sender.shorts w1 ≡ suc (slow-Sender.shorts (arriving []))))))
unfolding slow-Sender
write_line-network_text_example = write_line-network_text slow slow-Sender two_lines (arriving [])

-- "220 ok"
abbrev welcome : List ℕ
welcome = b'2' ∷ b'2' ∷ b'0' ∷ b' ' ∷ b'o' ∷ b'k' ∷ []

read_line-GotLine_example :
    GotLine slow slow-Feed welcome
      (b'2' ∷ [])
      (read_line slow 9 control 512 (b'2' ∷ []) (arriving (drop 1 welcome ++ 13 ∷ 10 ∷ b'2' ∷ [])))
unfolding slow-Feed
read_line-GotLine_example =
    read_line-GotLine slow slow-Feed 9 512 (b'2' ∷ []) welcome (b'2' ∷ [])
      (arriving (drop 1 welcome ++ 13 ∷ 10 ∷ b'2' ∷ [])) (omega arith) refl (omega arith)
      (omega arith)

-- A network that delivers 512 bytes at a time.
abbrev fast : Net World
fast = record slow { read = λ n w. (bytes (replicate 512 97), w) }

read_line_full_example : read_line fast 2 control 512 [] (arriving []) ≡ fault
read_line_full_example =
    read_line_full fast 1 512 (replicate 512 97) (arriving []) (omega arith) refl refl

-- "220-hi", "220a" and "220 ok".
abbrev greeting : List (List ℕ)
greeting =
    (b'2' ∷ b'2' ∷ b'0' ∷ b'-' ∷ b'h' ∷ b'i' ∷ []) ∷ (b'2' ∷ b'2' ∷ b'0' ∷ b'a' ∷ []) ∷ welcome ∷ []

abbrev connected : Sys World
connected = record {
  client = record { dir = control; response = replicate 512 0; unread = [] };
  world = arriving (
      b'2' ∷ b'2' ∷ b'0' ∷ b'-' ∷ b'h' ∷ b'i' ∷ 13 ∷ 10 ∷ b'2' ∷ b'2' ∷ b'0' ∷ b'a' ∷ 13 ∷ 10 ∷ b'2'
      ∷ b'2' ∷ b'0' ∷ b' ' ∷ b'o' ∷ b'k' ∷ 13 ∷ 10 ∷ []);
}

read_resp-Answer_example :
    (s1 : Sys World) × ((read_resp slow 4 9 b'2' connected ≡ returned (true, s1))
      × (ahead slow slow-Feed s1 ≡ []))
unfolding slow-Feed strncmp_same sent_lines
read_resp-Answer_example =
    read_resp-Answer slow slow-Feed 4 9 b'2' b'2' greeting [] connected
      (several b'2' b'0' (b'h' ∷ b'i' ∷ []) (b'o' ∷ b'k' ∷ [])
        ((b'2' ∷ b'2' ∷ b'0' ∷ b'a' ∷ []) ∷ []) (refl, tt))
      refl (omega arith) refl (omega arith)

abbrev working : Sys World
working = record {
  client = record { dir = control; response = replicate 512 0; unread = [] };
  world =
      arriving
        (b'2' ∷ b'5' ∷ b'7' ∷ b' ' ∷ b'"' ∷ b'/' ∷ b'a' ∷ b'"' ∷ b' ' ∷ b'o' ∷ b'k' ∷ 13 ∷ 10 ∷ []);
}

-- `257 "/a" ok` is the answer to PWD.
get_directory-name_example :
    (s1 : Sys World) × ((get_directory slow 2 99 working ≡ returned (b'/' ∷ b'a' ∷ [], s1))
      × (ahead slow slow-Feed s1 ≡ []))
unfolding slow-Feed
get_directory-name_example =
    get_directory-name slow slow-Feed 2 99 (b'/' ∷ b'a' ∷ []) (b' ' ∷ b'o' ∷ b'k' ∷ []) [] working
      refl (omega arith) (omega arith) refl
