-- ===== src/Samples/Numbers.antt =====
-- The numbers of the samples: an integer or a double.
use rlstatsapi.Prelude.{ℤ}
use rlstatsapi.Float.{F64}

pub data Num : Type 0 where
  int : ℤ → Num
  float : F64 → Num
