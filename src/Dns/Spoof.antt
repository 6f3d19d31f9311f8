-- ===== src/Dns/Spoof.antt =====
-- cmd/agent/commands/dns.go: parseSpoofEntries, which reads texts of the form domain=ip into a map.
use xk6_disruptor.Prelude.{
  Bool, false, ◌||◌, Option, none, some, List, [], ◌∷◌, ◌++◌, Text, codes, text_eq, is_empty, cut,
  Error, message, Result, ok, err, ◌>>=◌, ◌==◌, if◌then◌else◌,
}

-- result[key] = value
unfoldable pub assign : Text → Text → List (Text × Text) → List (Text × Text)
assign key value [] = (key, value) ∷ []
assign key value ((k, v) ∷ m) =
    if text_eq k key then (key, value) ∷ m else (k, v) ∷ assign key value m

-- The last character is a dot.
abbrev pub ends_with_dot : Text → Bool
ends_with_dot [] = false
ends_with_dot (c ∷ []) = c == b'.'
ends_with_dot (c ∷ (d ∷ s)) = ends_with_dot (d ∷ s)

abbrev pub qualified : Text → Text
qualified domain = if ends_with_dot domain then domain else domain ++ codes "."

abbrev pub bad_entry : Error
bad_entry = message "invalid spoof entry %q: expected domain=ip"

-- One entry, cut at its first equals sign.
unfoldable pub add_entry : List (Text × Text) → Option (Text × Text) → Result (List (Text × Text))
unfolding assign
add_entry result none = err bad_entry
add_entry result (some (domain, ip)) =
    if is_empty domain || is_empty ip
    then err bad_entry
    else ok (assign (qualified domain) ip result)

unfoldable pub parse_entries : List (Text × Text) → List Text → Result (List (Text × Text))
unfolding add_entry cut
parse_entries result [] = ok result
parse_entries result (entry ∷ entries) =
    add_entry result (cut b'=' entry) >>= λ more. parse_entries more entries

unfoldable pub parse_spoof_entries : List Text → Result (List (Text × Text))
unfolding parse_entries
parse_spoof_entries entries = parse_entries [] entries
