-- ===== src/Enrichment/Ingest/Text.antt =====
-- The messages of errors: which ones split a batch, and their truncation.
use cerniq_app_v.Prelude.{
  ℕ, ◌+◌, ◌-◌, List, [], ◌∷◌, ◌++◌, map, Bool, true, false, ◌&&◌, ◌||◌, String, ◌==◌, ltb,
  if◌then◌else◌, length, take,
}
use cerniq_app_v.Prelude.Text.{codes}

-- A text, as its code units.
abbrev pub Message : Type 0
Message = List ℕ

-- The text begins with the other.
unfoldable pub starts_with : Message → Message → Bool
starts_with s [] = true
starts_with [] (c ∷ t) = false
starts_with (a ∷ s) (c ∷ t) = a == c && starts_with s t

-- `s.includes(t)`
unfoldable pub contains : Message → Message → Bool
unfolding starts_with
contains [] t = starts_with [] t
contains (a ∷ s) t = starts_with (a ∷ s) t || contains s t

-- `toLowerCase` on an ASCII code unit.
unfoldable pub to_lower : ℕ → ℕ
to_lower c = if ltb 64 c && ltb c 91 then c + 32 else c

unfoldable pub contains_any : Message → List String → Bool
unfolding contains
contains_any s [] = false
contains_any s (t ∷ ts) = contains s (codes t) || contains_any s ts

abbrev pub connection_errors : List String
connection_errors =
    "timeout" ∷ "econn" ∷ "connection" ∷ "terminating connection" ∷ "could not connect" ∷ []

abbrev pub row_faults : List String
row_faults =
    "failed query: insert into \"bronze\".\"bronze_contacts\"" ∷ "bind message" ∷ "stack size"
    ∷ "statement too large" ∷ "invalid byte sequence" ∷ "unsupported unicode" ∷ "value too long"
    ∷ []

unfoldable pub should_split_insert_batch : Message → Bool
unfolding contains_any to_lower
should_split_insert_batch message =
    if contains_any (map to_lower message) connection_errors
    then false
    else contains_any (map to_lower message) row_faults

abbrev pub max_length : ℕ
max_length = 1000

unfoldable pub truncate_error_message : Message → ℕ → Message
truncate_error_message message max =
    if ltb max (length message) then take (max - 1) message ++ codes "..." else message
