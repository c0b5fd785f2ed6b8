-- ===== src/Audit/Socket/Framing.antt =====
-- A stream of audit lines becomes the events of those lines, in their order.
use mathlib.Core.List.{append_assoc, append-nil, reverse-cons, reverse-reverse}
use secret_control_panel.Base.{
  ltb, nat_eq, beq_of_ne, length, All, Result, ok, err, ℕ, suc, ◌+◌, ◌<◌, ◌≡◌, refl, sym, ap, ◌∙◌,
  ◌≢◌, Bool, true, List, [], ◌∷◌, ◌++◌, reverse, arith,
}
use secret_control_panel.Text.{Str, str_eq}
use secret_control_panel.Text.Trim.{NoHead}
use secret_control_panel.Wire.{SecretEvent}
use secret_control_panel.Audit.{DropReason}
use secret_control_panel.Audit.Socket.{
  max_socket_line, drop_cr, token, scan_from, scan_lines, Received, handle_lines, handle_conn,
}

-- A line that can be sent: no line feed in it, no "\r" at its end, and short enough.
abbrev pub IsLine : Str → Type 0
IsLine line = All (λ c. c ≢ 10) line × NoHead 13 (reverse line) × (length line < max_socket_line)

-- Each line with its line feed.
abbrev pub framed : List Str → Str
framed [] = []
framed (line ∷ lines) = line ++ 10 ∷ framed lines

abbrev keep_ok : Result DropReason SecretEvent → List SecretEvent → List SecretEvent
keep_ok (ok ev) events = ev ∷ events
keep_ok (err reason) events = events

-- The events that parseLine makes of the lines.
abbrev pub accepted : (Str → Result DropReason SecretEvent) → List Str → List SecretEvent
accepted parse [] = []
accepted parse (line ∷ lines) = keep_ok (parse line) (accepted parse lines)

scan_from-line :
    (bound : ℕ) (read line bytes : Str)
    → All (λ c. c ≢ 10) line
    → length read + length line < bound
    → scan_from bound read (line ++ 10 ∷ bytes)
      ≡ (token (reverse line ++ read) ∷ (scan_from bound [] bytes).0, (scan_from bound [] bytes).1)
unfolding scan_from
scan_from-line bound read [] bytes plain short = refl
scan_from-line bound read (c ∷ line) bytes (other, plain) short =
    let fits : ltb (suc (length read)) bound ≡ true = ground arith in
    rw (beq_of_ne c 10 other, scan_from, fits)
      (scan_from-line bound (c ∷ read) line bytes plain (omega arith)
        ∙ ap (λ t. (token t ∷ (scan_from bound [] bytes).0, (scan_from bound [] bytes).1))
            (sym (
              ap (λ t. t ++ read) (reverse-cons c line)
              ∙ append_assoc (reverse line) (c ∷ []) read)))

drop_cr-NoHead : (s : Str) → NoHead 13 s → drop_cr s ≡ s
drop_cr-NoHead [] h = refl
drop_cr-NoHead (c ∷ s) h = rw (beq_of_ne c 13 h)

scan_lines-framed :
    (lines : List Str)
    → All IsLine lines
    → scan_lines max_socket_line (framed lines) ≡ (lines, true)
unfolding scan_lines
scan_lines-framed [] h = unfold scan_from in refl
scan_lines-framed (line ∷ lines) ((plain, no_cr, short), h) =
    let rest = scan_lines-framed lines h in
    scan_from-line max_socket_line [] line (framed lines) plain (omega arith)
    ∙ ap
        (λ t. (
          t ∷ (scan_from max_socket_line [] (framed lines)).0,
          (scan_from max_socket_line [] (framed lines)).1,
        ))
        whole
    ∙ ap (λ (q : List Str × Bool). (line ∷ q.0, q.1)) rest
  where
    whole : token (reverse line ++ []) ≡ line
    whole =
        ap token (append-nil (reverse line))
        ∙ ap reverse (drop_cr-NoHead (reverse line) no_cr)
        ∙ reverse-reverse line

-- All lines looked at, and the accepted ones on the channel.
abbrev pub all_received : (Str → Result DropReason SecretEvent) → List Str → Received
all_received parse lines = record {
  events = accepted parse lines;
  n_lines = length lines;
  n_accepted = length (accepted parse lines);
  finished = true;
}

handle_lines-accepted :
    (parse : Str → Result DropReason SecretEvent) (lines : List Str)
    → handle_lines parse lines [] ≡ all_received parse lines
unfolding handle_lines
handle_lines-accepted parse [] = refl
handle_lines-accepted parse (line ∷ lines) =
    by_line (parse line) refl (handle_lines-accepted parse lines)
  where
    by_line :
        (o : Result DropReason SecretEvent)
        → parse line ≡ o
        → handle_lines parse lines [] ≡ all_received parse lines
        → handle_lines parse (line ∷ lines) [] ≡ all_received parse (line ∷ lines)
    by_line (err reason) h rest = rw (h, handle_lines, rest) refl
    by_line (ok ev) h rest = rw (h, handle_lines, rest) refl

-- When Vault sends lines, each with its line feed and shorter than 1 MiB, and the channel takes every
-- event, handleConn puts the events of exactly the lines that parseLine accepts on the channel, in
-- the order of the lines, and counts both.
pub handle_conn-framed :
    (parse : Str → Result DropReason SecretEvent) (lines : List Str)
    → All IsLine lines
    → handle_conn parse (framed lines) [] ≡ all_received parse lines
unfolding handle_conn
handle_conn-framed parse lines h =
    ap (λ (q : List Str × Bool). handle_lines parse q.0 []) (scan_lines-framed lines h)
    ∙ handle_lines-accepted parse lines
