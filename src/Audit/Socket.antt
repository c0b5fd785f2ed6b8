-- ===== src/Audit/Socket.antt =====
-- internal/scp/audit/socket_listener.go: handleConn, from the bytes of a connection to the events on
-- the channel. bufio.Scanner with ScanLines is modelled by its documentation. Run, which
-- starts one handleConn for each connection, is in Commands/Stopping.
pub mod Framing
use secret_control_panel.Base.{
  ltb, leb, nat_beq, if◌then◌else◌, leb_iff, nat_beq_iff, Bool-cases, Option-cases, is_some, ◌==◌,
  ◌!=◌, nat_eq, eq_iff, eq_refl, ne_of_beq, beq_of_ne, list_beq, list_beq_iff, Eq, length, take,
  any, all, filter, find?, All, length-append, All-append, All-mem, All-of-mem, All-perm, mem-perm,
  All-take, All-map, mem-filter, mem_of-filter, length-filter-le, length-filter-lt, pos_part,
  neg_part, ◌≤ℤ◌, leb_ℤ, ℤ, pos, negsuc, ◌>>=◌, ◌>>◌, >>=-ok, Result, ok, err, Pairs, Pairs-take,
  Pairs-filter, Pairs-perm, Pairs-map, Pairs-of-map, Pairs-eq, Pairs-append-one, ℕ, zero, suc, ◌+◌,
  ◌-◌, ◌*◌, ◌%◌, ◌^◌, ◌≤◌, ◌<◌, min, max, ◌≡◌, refl, sym, ap, subst, ◌∙◌, ◌≢◌, ◌↔◌, ◌⊎◌, inl, inr,
  Bool, true, false, false≢true, not, ◌&&◌, ◌||◌, Option, none, some, List, [], ◌∷◌, ◌++◌, map,
  reverse, Memᴰ, Permᴰ, le_antisymm, le_trans, le_refl, arith,
}
use secret_control_panel.Text.{Str, str_eq}
use secret_control_panel.Wire.{SecretEvent}
use secret_control_panel.Audit.{DropReason}

abbrev pub max_socket_line : ℕ
max_socket_line = 1_048_576

-- The line whose bytes, without its "\n", have been read in this order, last byte first: a trailing
-- "\r" is dropped.
abbrev pub drop_cr : Str → Str
drop_cr [] = []
drop_cr (c ∷ rest) = if c == 13 then rest else c ∷ rest

abbrev pub token : Str → Str
token read = reverse (drop_cr read)

-- A last line without its "\n" counts if it has a byte.
abbrev pub last_token : Str → List Str
last_token [] = []
last_token (c ∷ read) = token (c ∷ read) ∷ []

-- The lines that Scan returns, and whether it ended without bufio.ErrTooLong. `read` has the bytes of
-- the line at hand, last byte first; a line of `max` bytes does not fit the buffer with its end.
unfoldable pub scan_from : ℕ → Str → Str → List Str × Bool
scan_from max read [] = (last_token read, true)
scan_from max read (c ∷ bytes) = elim (c == 10) [
  | true ↦ let (lines, fits) = scan_from max [] bytes in (token read ∷ lines, fits)
  | false ↦ elim (ltb (suc (length read)) max) [
    | true ↦ scan_from max (c ∷ read) bytes
    | false ↦ ([], false)
  ]
]

unfoldable pub scan_lines : ℕ → Str → List Str × Bool
scan_lines max bytes = scan_from max [] bytes

-- What a connection has led to: the events on the channel in their order, the two counts, and whether
-- the loop ran to the end of the lines.
pub record Received : Type 0 where
  pub events : List SecretEvent
  pub n_lines : ℕ
  pub n_accepted : ℕ
  pub finished : Bool

abbrev nothing : Received
nothing = record { events = []; n_lines = 0; n_accepted = 0; finished = true }

abbrev skipped : Received → Received
skipped r = record r { n_lines = suc r.n_lines }

abbrev passed_on : SecretEvent → Received → Received
passed_on ev r = record r {
  events = ev ∷ r.events;
  n_lines = suc r.n_lines;
  n_accepted = suc r.n_accepted;
}

-- `parse` is parseLine. `sends` says for the next events whether the channel takes them before the
-- context is done; after those, it does.
unfoldable pub handle_lines :
    (Str → Result DropReason SecretEvent) → List Str → List Bool → Received
handle_lines parse [] sends = nothing
handle_lines parse (line ∷ lines) sends = elim (parse line) [
  | err reason ↦ skipped (handle_lines parse lines sends)
  | ok ev ↦ elim sends [
    | [] ↦ passed_on ev (handle_lines parse lines [])
    | true ∷ later ↦ passed_on ev (handle_lines parse lines later)
    | false ∷ later ↦ record { events = []; n_lines = 1; n_accepted = 1; finished = false }
  ]
]

unfoldable pub handle_conn : (Str → Result DropReason SecretEvent) → Str → List Bool → Received
handle_conn parse bytes sends = handle_lines parse (scan_lines max_socket_line bytes).0 sends
