-- ===== src/Driver/Log.antt =====
-- The specification of the device (aesd-char-driver/char-driver/src/aesd-char-fileops.c): the last
-- ten commands, oldest first, and the bytes of a command that has no newline yet.
use embedded_linux.Common.{ℕ, List, [], ◌∷◌, ◌++◌, ◌==◌, if◌then◌else◌, length, tail}
use embedded_linux.Driver.Ownership.{Log}
use embedded_linux.Driver.Write.{has_newline}

-- An eleventh command pushes the oldest out.
unfoldable pub push_command : List (List ℕ) → List ℕ → List (List ℕ)
push_command cs c = (if length cs == 10 then tail cs else cs) ++ (c ∷ [])

-- The pending bytes, with the new ones, become a command once they hold a newline.
unfoldable pub append_bytes : List ℕ → Log → Log
append_bytes bs l =
    let text = l.pending ++ bs in
    if has_newline text
    then record { commands = push_command l.commands text; pending = [] }
    else record { commands = l.commands; pending = text }
