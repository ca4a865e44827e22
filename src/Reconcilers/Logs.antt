-- ===== src/Reconcilers/Logs.antt =====
-- `cleanLogData` and the read loop of `fetchEphemeralLogs` in
-- internal/controller/session_phases/reconcilers/terminating_reconciler.go, over lists of bytes.
-- What the Go code appends to `cleaned` is the result here.
pub mod Laws
use kube_debug_sess.Prelude.{
  ℕ, String, Bool, true, false, ◌&&◌, ◌||◌, List, [], ◌∷◌, ◌++◌, leb, ◌==◌, if◌then◌else◌,
}
use kube_debug_sess.Kube.{Fallible, ok, err, LogStream, eof, broken, chunk}

abbrev pub escape : ℕ
escape = 0x1b

abbrev pub newline : ℕ
newline = b'\n'

-- A letter or `~` ends an escape sequence.
abbrev pub ends_escape : ℕ → Bool
ends_escape b = leb b'A' b && leb b b'Z' || leb b'a' b && leb b b'z' || b == b'~'

-- Carriage return, bell, backspace.
abbrev is_dropped : ℕ → Bool
is_dropped b = b == b'\r' || b == 0x07 || b == 0x08

-- The loop; the flag is `inEscape`.
unfoldable pub strip : Bool → List ℕ → List ℕ
strip in_escape [] = []
strip in_escape (b ∷ bytes) =
    let inside = strip true bytes in
    let outside = strip false bytes in
    let kept = b ∷ outside in
    if b == escape
    then inside
    else if in_escape
    then (if ends_escape b then outside else inside)
    else if is_dropped b
    then outside
    else kept

-- `bytes.ReplaceAll(cleaned, "\n\n\n", "\n\n")`: from the left, without overlaps.
unfoldable pub replace_newlines : List ℕ → List ℕ
replace_newlines [] = []
replace_newlines (a ∷ []) = a ∷ []
replace_newlines (a ∷ b ∷ []) = a ∷ b ∷ []
replace_newlines (a ∷ b ∷ c ∷ rest) =
    let hit = newline ∷ newline ∷ replace_newlines rest in
    let miss = a ∷ replace_newlines (b ∷ c ∷ rest) in
    if a == newline && b == newline && c == newline then hit else miss

unfoldable pub clean_log_data : List ℕ → List ℕ
clean_log_data bytes = replace_newlines (strip false bytes)

-- The read loop: `logs` is the buffer.
unfoldable pub read_log : LogStream → List ℕ → Fallible String (List ℕ)
read_log (eof bytes) logs = ok (logs ++ bytes)
read_log (broken bytes text) logs = err text
read_log (chunk bytes rest) logs = read_log rest (logs ++ bytes)
