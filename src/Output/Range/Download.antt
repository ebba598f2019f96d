-- ===== src/Output/Range/Download.antt =====
-- The client receives exactly the range that the server found valid.
use asp.Base.{ℕ, List, [], ◌∷◌, ◌++◌, ◌==◌}
use asp.Output.Range.{Response, stream_end}

-- The frames after BEGIN.
abbrev ended : ℕ → List Response × ℕ → List Response
ended len chunks = chunks.0 ++ (stream_end chunks.1 (chunks.1 == len) ∷ [])
