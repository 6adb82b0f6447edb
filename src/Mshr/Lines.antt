-- ===== src/Mshr/Lines.antt =====
-- libsuc/MSHR: the map `ms` of `SingleMSHR`, from the address of a line to its entry.
use sesc_src.Common.{ℕ, Option, none, some, List, [], ◌∷◌, ◌==◌, if◌then◌else◌}
use sesc_src.Mshr.Entry.{Entry}

abbrev pub Lines : Type 0
Lines = List (ℕ × Entry)

-- `ms.find(line)`
unfoldable pub find : ℕ → Lines → Option Entry
find line [] = none
find line ((k, e) ∷ rest) = if line == k then some e else find line rest

-- `ms[line] = e`
unfoldable pub put : ℕ → Entry → Lines → Lines
put line e [] = (line, e) ∷ []
put line e ((k, e') ∷ rest) = if line == k then (k, e) ∷ rest else (k, e') ∷ put line e rest

-- `ms.erase(it)`
unfoldable pub erase : ℕ → Lines → Lines
erase line [] = []
erase line ((k, e) ∷ rest) = if line == k then rest else (k, e) ∷ erase line rest
