-- ===== src/Wire/Version.antt =====
-- Protocol versions of crates/asp-protocol/src/lib.rs.
use asp.Base.{ℕ, Bool, false, ◌||◌, List, [], ◌∷◌, ◌==◌}

abbrev pub protocol_version : ℕ
protocol_version = 17

abbrev pub legacy_protocol_version : ℕ
legacy_protocol_version = 16

abbrev pub supported_protocol_versions : List ℕ
supported_protocol_versions = legacy_protocol_version ∷ protocol_version ∷ []

-- slice::contains
abbrev contains : List ℕ → ℕ → Bool
contains [] x = false
contains (y ∷ ys) x = y == x || contains ys x

unfoldable pub protocol_version_supported : ℕ → Bool
protocol_version_supported version = contains supported_protocol_versions version
