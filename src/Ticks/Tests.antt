-- ===== src/Ticks/Tests.antt =====
-- The command line of tick_listener.rs.
use rlstatsapi.Prelude.{◌≡◌, refl, some, [], ◌∷◌}
use rlstatsapi.Arguments.{parsed, parse_all}
use rlstatsapi.Ticks.{parse_ini_arg}

parse_twice : parse_ini_arg ("--ini" ∷ "a" ∷ "--ini" ∷ "b" ∷ []) ≡ parsed (some "b")
unfolding parse_ini_arg parse_all
parse_twice = refl
